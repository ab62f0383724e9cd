-- ===== src/Framing/Headers.antt =====
-- Headers that no sender of the library writes: sizes that are 0, too small, or too large.
use nicenet.Common.{
  ℕ, zero, suc, ◌+◌, ◌-◌, ◌%◌, ◌^◌, ◌≤◌, ◌<◌, ◌≡◌, ◌≢◌, refl, ap, ◌∙◌, arith, [], ◌++◌, append-nil,
  length, take, drop, length-append, length-drop, drop-drop, drop_all, Bytes, le_bytes, of_le,
  Result, ok, fault, out_of_bounds, le→ltb, lt→ltb, le→leb, lt→leb,
}
use nicenet.Message.{Buff, null, inline, heap, empty, alloc, splice, from_buffer}
use nicenet.Message.RoundTrip.{length-alloc}
use nicenet.Framing.{
  Session, Step, finish, again, post, parse_fresh, parse_header, parse_at, parse_step, deliver,
  start_long, faulted, unfinished, parse_msg, poke, parse_body, complete, append, swap_through,
}
use nicenet.Framing.Frames.{parse_step-null, parse_msg_finish, parse_msg_again, parse_msg_fault}
use nicenet.Framing.Pending.{slice_at}
use nicenet.Framing.Head.{parse_at_pending, poke_lem}

fresh_zero :
    (garbage : ℕ → ℕ) (s : Session) (data_ : Bytes)
    → 4 ≤ length data_
    → of_le (take 4 data_) ≡ 0
    → parse_fresh garbage s data_ ≡ ok (again (post empty s) data_)
unfolding parse_fresh deliver from_buffer
fresh_zero garbage s data_ h z = rw (le→ltb (length data_) 4 h) (
    rw z (
      rw (le→leb 0 (length data_) (omega arith)) (rw (lt→ltb 0 (length data_) (omega arith)) refl)))

-- A message size of 0 is taken for a whole message that leaves the read as it was: `parseMsg`
-- calls itself on the same bytes for ever, and posts an empty message each time round.
pub parse_msg_zero :
    (garbage : ℕ → ℕ) (fuel : ℕ) (s : Session) (data_ : Bytes)
    → s.prev.buff ≡ null
    → 4 ≤ length data_
    → length data_ ≤ 16384
    → of_le (take 4 data_) ≡ 0
    → parse_msg garbage fuel s data_ ≡ unfinished
unfolding parse_msg
parse_msg_zero garbage zero s data_ e h small z = refl
parse_msg_zero garbage (suc fuel) s data_ e h small z =
    parse_msg_again garbage fuel s data_
      (parse_step-null garbage s data_ e small ∙ fresh_zero garbage s data_ h z)
    ∙ parse_msg_zero garbage fuel (post empty s) data_ e h small z

-- No four bytes of the read that could be taken for a header are all zero.
abbrev pub NoZeroHeader : Bytes → Type 0
NoZeroHeader data_ = (k : ℕ) → k + 4 ≤ length data_ → 0 < of_le (take 4 (drop k data_))

abbrev IsAgain : Result Step → Session → Bytes → Type 0
IsAgain r s' rest = r ≡ ok (again s' rest)

-- No call but the one on a message that came whole goes on behind it.
body_stops :
    (s : Session) (block data_ : Bytes) (cut : ℕ) (s' : Session) (rest : Bytes)
    → parse_body s block data_ cut ≢ ok (again s' rest)
unfolding parse_body complete append swap_through
body_stops s block data_ cut s' rest = ground arith

header_stops :
    (garbage : ℕ → ℕ) (s : Session) (data_ : Bytes) (s' : Session) (rest : Bytes)
    → parse_header garbage s data_ ≢ ok (again s' rest)
unfolding parse_header parse_body complete append swap_through
header_stops garbage s data_ s' rest = ground arith

fresh_shrinks :
    (garbage : ℕ → ℕ) (s : Session) (data_ : Bytes) (s' : Session) (rest : Bytes)
    → parse_fresh garbage s data_ ≡ ok (again s' rest)
    → (4 ≤ length data_)
      × (rest ≡ drop (of_le (take 4 data_)) data_)
      × (of_le (take 4 data_) < length data_)
unfolding parse_fresh poke deliver start_long
fresh_shrinks garbage s data_ s' rest e = ground arith

step_shrinks :
    (garbage : ℕ → ℕ) (b : Buff) (s : Session) (data_ : Bytes) (s' : Session) (rest : Bytes)
    → parse_at garbage b s data_ ≡ ok (again s' rest)
    → (4 ≤ length data_)
      × (rest ≡ drop (of_le (take 4 data_)) data_)
      × (of_le (take 4 data_) < length data_)
unfolding parse_at
step_shrinks garbage null s data_ s' rest e = fresh_shrinks garbage s data_ s' rest e
step_shrinks garbage inline s data_ s' rest e = absurd (header_stops garbage s data_ s' rest e)
step_shrinks garbage (heap block) s data_ s' rest e = absurd (body_stops s block data_ 0 s' rest e)

NoZeroHeader-drop : (n : ℕ) (data_ : Bytes) → NoZeroHeader data_ → NoZeroHeader (drop n data_)
NoZeroHeader-drop n data_ h k lt =
    rw (drop-drop n k data_) (h (n + k) (omega (arith, length-drop n data_)))

at_of_step :
    (garbage : ℕ → ℕ) (s : Session) (data_ : Bytes) (s' : Session) (rest : Bytes)
    → parse_step garbage s data_ ≡ ok (again s' rest)
    → parse_at garbage s.prev.buff s data_ ≡ ok (again s' rest)
unfolding parse_step
at_of_step garbage s data_ s' rest = ground arith

after_step :
    (garbage : ℕ → ℕ) (fuel : ℕ) (s : Session) (data_ : Bytes)
    → NoZeroHeader data_
    → length data_ < suc fuel
    → ((s' : Session) (rest : Bytes)
        → NoZeroHeader rest
        → length rest < fuel
        → parse_msg garbage fuel s' rest ≢ unfinished)
    → (r : Result Step) → parse_step garbage s data_ ≡ r
    → parse_msg garbage (suc fuel) s data_ ≢ unfinished
after_step garbage fuel s data_ h lt ih (ok (finish b s')) e =
    rw (parse_msg_finish garbage fuel s data_ e) (λ p. cc)
after_step garbage fuel s data_ h lt ih (fault x) e =
    rw (parse_msg_fault garbage fuel s data_ e) (λ p. cc)
after_step garbage fuel s data_ h lt ih (ok (again s' rest)) e =
    let n = of_le (take 4 data_) in
    let (four, cut, less) =
      step_shrinks garbage s.prev.buff s data_ s' rest (at_of_step garbage s data_ s' rest e) in
    let some : 0 < n = h 0 (omega arith) in
    rw (parse_msg_again garbage fuel s data_ e) (
      ih s' rest (rw cut (NoZeroHeader-drop n data_ h))
        (omega (arith, ap length cut, length-drop n data_)))

-- Without a header of zeros in the read `parseMsg` comes back, or faults: from every session, one
-- call for each byte of the read, and one more, are enough.
pub parse_msg_ends_calls :
    (garbage : ℕ → ℕ) (fuel : ℕ) (s : Session) (data_ : Bytes)
    → NoZeroHeader data_
    → length data_ < fuel
    → parse_msg garbage fuel s data_ ≢ unfinished
parse_msg_ends_calls garbage zero s data_ h lt = absurd (omega arith)
parse_msg_ends_calls garbage (suc fuel) s data_ h lt =
    after_step garbage fuel s data_ h lt (parse_msg_ends_calls garbage fuel)
      (parse_step garbage s data_) refl

splice_fails :
    (garbage : ℕ → ℕ) (n : ℕ)
    → n < 4
    → splice 0 (le_bytes 4 n) (alloc garbage n) ≡ fault out_of_bounds
unfolding splice
splice_fails garbage n h =
    rw (lt→leb 4 (length (alloc garbage n)) (omega (arith, length-alloc garbage n)))

-- A pending header that the read completes to a size below 4 (0 too) makes the four bytes of the
-- size be copied into a smaller block.
pub parse_msg_overflow :
    (garbage : ℕ → ℕ) (fuel : ℕ) (s : Session) (t free c z : Bytes)
    → s.prev.buff ≡ inline
    → s.prev.read_point ≡ length t
    → le_bytes 4 s.prev.write_point ≡ t ++ free
    → length t < 4
    → length t + length c ≡ 4
    → of_le (t ++ c) < 4
    → length (c ++ z) ≤ 16384
    → parse_msg garbage (suc fuel) s (c ++ z) ≡ faulted out_of_bounds
unfolding parse_at parse_header
parse_msg_overflow garbage fuel s t free c z e rp laid short four tiny small =
    let n = of_le (t ++ c) in
    let len = length-append c z in
    let lent = length-append t free in
    let full : drop (length c) free ≡ [] =
      drop_all (length c) free (omega (arith, ap length laid)) in
    let whole : t ++ (c ++ drop (length c) free) ≡ t ++ c = rw (full, append-nil) in
    let cut : (4 + 2 ^ 32 - s.prev.read_point) % 2 ^ 32 ≡ length c = omega arith in
    let enough : 4 ≤ (s.prev.read_point + length (c ++ z)) % 2 ^ 32 = omega arith in
    parse_msg_fault garbage fuel s (c ++ z) (
      parse_at_pending garbage s (c ++ z) e small
      ∙ rw (le→ltb ((s.prev.read_point + length (c ++ z)) % 2 ^ 32) 4 enough) (
          rw cut (
            rw (slice_at 0 (length c) [] c z refl refl) (
              rw (poke_lem s.prev t free c rp laid (omega arith))
                (rw whole (rw (splice_fails garbage n tiny) refl))))))
