-- ===== src/Framing/Head.antt =====
-- A read behind a part of a header.
use nicenet.Common.{
  ℕ, ◌+◌, ◌-◌, ◌%◌, ◌^◌, ◌≤◌, ◌<◌, ◌≡◌, refl, ap, ◌∙◌, arith, true, [], ◌++◌, append-nil, length,
  drop, length-append, drop_all, All, Bytes, IsByte, le_bytes, of_le, le_bytes-of_le, ok, le→ltb,
  lt→ltb,
}
use nicenet.Message.{Message, Buff, heap, alloc, splice}
use nicenet.Message.RoundTrip.{length-alloc}
use nicenet.Framing.{
  Session, finish, keep, network_buf_size, poke, parse_body, parse_header, parse_at, parse_step,
}
use nicenet.Framing.Pending.{splice_at, slice_at}

-- Up to four bytes put behind a partial header.
pub poke_lem :
    (prev : Message) (t free c : Bytes)
    → prev.read_point ≡ length t
    → le_bytes 4 prev.write_point ≡ t ++ free
    → length t + length c ≤ 4
    → poke prev.read_point c prev
      ≡ ok (record prev { write_point = of_le (t ++ (c ++ drop (length c) free)) })
unfolding poke
poke_lem prev t free c rp laid h =
    let len = length-append t free in
    rw (laid, splice_at prev.read_point t c free rp (omega (arith, ap length laid))) refl

pub new_block :
    (garbage : ℕ → ℕ) (n : ℕ) (head : Bytes)
    → le_bytes 4 n ≡ head
    → 4 ≤ n
    → splice 0 (le_bytes 4 n) (alloc garbage n) ≡ ok (head ++ drop 4 (alloc garbage n))
new_block garbage n head e h =
    splice_at 0 [] (le_bytes 4 n) (alloc garbage n) refl (omega (arith, length-alloc garbage n))
    ∙ ap (λ (x : Bytes). ok (x ++ drop 4 (alloc garbage n))) e

-- The header becomes whole: a block of its size takes the message over.
pub header_completes :
    (garbage : ℕ → ℕ) (s : Session) (t free c z : Bytes)
    → s.prev.read_point ≡ length t
    → le_bytes 4 s.prev.write_point ≡ t ++ free
    → length t + length c ≡ 4
    → All IsByte (t ++ c)
    → 4 ≤ of_le (t ++ c)
    → length (c ++ z) ≤ 16384
    → let block = (t ++ c) ++ drop 4 (alloc garbage (of_le (t ++ c))) in
      parse_header garbage s (c ++ z)
      ≡ parse_body
          (keep (record { buff = heap block; write_point = 4; read_point = 4 }) s)
          block
          (c ++ z)
          (length c)
unfolding parse_header
header_completes garbage s t free c z rp laid four bytes least small =
    let n = of_le (t ++ c) in
    let len = length-append c z in
    let lent = length-append t free in
    let full : drop (length c) free ≡ [] =
      drop_all (length c) free (omega (arith, ap length laid)) in
    let whole : t ++ (c ++ drop (length c) free) ≡ t ++ c = rw (full, append-nil) in
    let cut : (4 + 2 ^ 32 - s.prev.read_point) % 2 ^ 32 ≡ length c = omega arith in
    let enough : 4 ≤ (s.prev.read_point + length (c ++ z)) % 2 ^ 32 = omega arith in
    let four' : length (t ++ c) ≡ 4 = omega (arith, length-append t c) in
    let head : le_bytes 4 n ≡ t ++ c = rw four' at (le_bytes-of_le (t ++ c) bytes) in
    rw (le→ltb ((s.prev.read_point + length (c ++ z)) % 2 ^ 32) 4 enough) (
      rw cut (
        rw (slice_at 0 (length c) [] c z refl refl) (
          rw (poke_lem s.prev t free c rp laid (omega arith))
            (rw whole (rw (new_block garbage n (t ++ c) head least) refl)))))

pub header_grows :
    (garbage : ℕ → ℕ) (s : Session) (t free x : Bytes)
    → s.prev.read_point ≡ length t
    → le_bytes 4 s.prev.write_point ≡ t ++ free
    → length t + length x < 4
    → parse_header garbage s x
      ≡ ok (
          finish true (
            keep
              (record s.prev {
                write_point = of_le (t ++ (x ++ drop (length x) free));
                read_point = length (t ++ x);
              })
              s))
unfolding parse_header
header_grows garbage s t free x rp laid h =
    let moved : (s.prev.read_point + length x) % 2 ^ 32 ≡ length (t ++ x) =
      omega (arith, length-append t x) in
    rw (moved) (
      rw (lt→ltb (length (t ++ x)) 4 (omega (arith, length-append t x)))
        (rw (poke_lem s.prev t free x rp laid (omega arith)) refl))

pub parse_at_pending :
    (garbage : ℕ → ℕ) (s : Session) (data_ : Bytes) {b : Buff}
    → s.prev.buff ≡ b
    → length data_ ≤ 16384
    → parse_step garbage s data_ ≡ parse_at garbage b s data_
unfolding parse_step
parse_at_pending garbage s data_ e h = rw (le→ltb network_buf_size (length data_) h) (rw e)
