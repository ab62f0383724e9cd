-- ===== src/Framing/Split.antt =====
-- A message that comes in more than one read.
use nicenet.Common.{
  ℕ, suc, ◌+◌, ◌-◌, ◌≤◌, ◌≡◌, ◌≢◌, refl, sym, ◌∙◌, arith, true, [], ◌∷◌, ◌++◌, append-nil,
  append_assoc, length, take, drop, length-append, length-take, length-drop, take-append-drop,
  take-append, take-append_le, Bytes, IsByte, le_bytes, of_le, fault, null_dereference,
  All-append_left,
}
use nicenet.Message.{null, heap, alloc}
use nicenet.Message.RoundTrip.{length-alloc}
use nicenet.Framing.{
  Session, keep, parse_header, parse_at, parse_step, returned, faulted, parse_msg,
}
use nicenet.Framing.Pending.{IsFrame, IsFront, Pending, nothing, header, body}
use nicenet.Framing.Frames.{Cuts, parse_msg_finish, parse_msg_fault}
use nicenet.Framing.Rest.{body_completes}
use nicenet.Framing.Head.{header_completes, parse_at_pending}
use nicenet.Framing.Growing.{parse_step_grows}

header_ends :
    (garbage : ℕ → ℕ) (s : Session) (t free c y rest : Bytes)
    → s.prev.read_point ≡ length t
    → le_bytes 4 s.prev.write_point ≡ t ++ free
    → length t + length c ≡ 4
    → IsFrame (t ++ (c ++ y))
    → length (c ++ (y ++ rest)) ≤ 16384
    → parse_header garbage s (c ++ (y ++ rest)) ≡ fault null_dereference
header_ends garbage s t free c y rest rp laid four f small =
    let u = t ++ c in
    let n = of_le u in
    let room = drop 4 (alloc garbage n) in
    let lenu = length-append t c in
    let lenw = length-append u y in
    let lenr = length-drop 4 (alloc garbage n) in
    let lena = length-alloc garbage n in
    let len = length-append u room in
    let f' : IsFrame (u ++ y) = rw (append_assoc t c y) f in
    let front : take 4 (u ++ y) ≡ u = take-append 4 u y (omega arith) in
    let whole : n ≡ length (u ++ y) = rw front at f'.counted in
    let bytes = All-append_left IsByte u y f'.bytes in
    let counted : of_le (take 4 (u ++ room)) ≡ length (u ++ room) =
      rw (take-append 4 u room (omega arith)) (omega (arith, f'.least)) in
    let s₁ = keep (record { buff = heap (u ++ room); write_point = 4; read_point = 4 }) s in
    header_completes garbage s t free c (y ++ rest) rp laid four bytes (omega (arith, f'.least))
      small
    ∙ body_completes s₁ u room c y rest (omega arith) counted (omega (arith, f'.least, f'.most))
        (omega arith) (omega (arith, f'.least)) small

-- The read that ends a pending message makes `recvMsg->swap(prevMsg)` with a null `recvMsg`.
pub parse_step_ends :
    (garbage : ℕ → ℕ) (s : Session) (t x rest : Bytes)
    → Pending s.prev t
    → t ≢ []
    → IsFrame (t ++ x)
    → length (x ++ rest) ≤ 16384
    → parse_step garbage s (x ++ rest) ≡ fault null_dereference
unfolding parse_at
parse_step_ends garbage s t x rest (nothing e none) ne f small = absurd (ne none)
parse_step_ends garbage s t x rest (header free e rp laid short) ne f small =
    let k = 4 - length t in
    let cut = take-append-drop k x in
    let sum = length-append t x in
    let same : (take k x ++ (drop k x ++ rest)) ≡ x ++ rest =
      sym (append_assoc (take k x) (drop k x) rest) ∙ rw cut in
    rw (parse_at_pending garbage s (x ++ rest) e small) (
      rw (← same) (
        header_ends garbage s t free (take k x) (drop k x) rest rp laid
          (omega (arith, length-take k x, f.least)) (rw cut f) (rw same small)))
parse_step_ends garbage s t x rest (body room e wp counted least lt most) ne f small =
    let head = take-append_le 4 t x least in
    let head' = take-append_le 4 t room least in
    let whole = rw head at f.counted in
    rw (parse_at_pending garbage s (x ++ rest) e small) (
      body_completes s t room [] x rest wp (rw head' counted) most (omega arith)
        (omega (arith, length-append t x, length-append t room)) small)

-- A read that goes on with a pending front `t` and leaves the message unfinished returns true,
-- posts nothing, and keeps `t` with the read behind it.
pub parse_msg_grows :
    (garbage : ℕ → ℕ) (fuel : ℕ) (s : Session) (t x : Bytes)
    → Pending s.prev t
    → IsFront (t ++ x)
    → length x ≤ 16384
    → Cuts garbage (suc fuel) s x [] (t ++ x)
parse_msg_grows garbage fuel s t x p f small =
    let (s', step, posted, p') = parse_step_grows garbage s t x p f small in
    record {
      after = s';
      returns = parse_msg_finish garbage fuel s x step;
      posts = posted ∙ sym (append-nil s.posted);
      keeps = p';
    }

-- The read that completes a pending message faults, however the message was cut into reads
-- before, and whatever follows it.
pub parse_msg_ends :
    (garbage : ℕ → ℕ) (fuel : ℕ) (s : Session) (t x rest : Bytes)
    → Pending s.prev t
    → t ≢ []
    → IsFrame (t ++ x)
    → length (x ++ rest) ≤ 16384
    → parse_msg garbage (suc fuel) s (x ++ rest) ≡ faulted null_dereference
parse_msg_ends garbage fuel s t x rest p ne f small =
    parse_msg_fault garbage fuel s (x ++ rest) (parse_step_ends garbage s t x rest p ne f small)

IsFront-of_frame : (t x : Bytes) → IsFrame (t ++ x) → x ≢ [] → IsFront t
IsFront-of_frame t [] f ne = absurd (ne refl)
IsFront-of_frame t (b ∷ x) f ne = record {
  bytes = All-append_left IsByte t (b ∷ x) f.bytes;
  short = λ h.
      let counted = rw (take-append_le 4 t (b ∷ x) h) at f.counted in
      let sum = length-append t (b ∷ x) in (omega arith, omega (arith, f.most));
}

-- A message that arrives in two reads never reaches a handler: from a session with nothing
-- pending, the read of a proper front `t` returns true and posts nothing, and the read of the
-- rest, whatever follows it, faults.
pub parse_msg_split :
    (garbage : ℕ → ℕ) (fuel fuel' : ℕ) (s : Session) (t x rest : Bytes)
    → s.prev.buff ≡ null
    → IsFrame (t ++ x)
    → t ≢ []
    → x ≢ []
    → length t ≤ 16384
    → length (x ++ rest) ≤ 16384
    → (s' : Session) × (parse_msg garbage (suc fuel) s t ≡ returned true s')
      × (s'.posted ≡ s.posted)
      × (parse_msg garbage (suc fuel') s' (x ++ rest) ≡ faulted null_dereference)
parse_msg_split garbage fuel fuel' s t x rest e f ne ne' small small' =
    let c =
      parse_msg_grows garbage fuel s [] t (nothing e refl) (IsFront-of_frame t x f ne') small in
    (
      c.after,
      c.returns,
      c.posts ∙ append-nil s.posted,
      parse_msg_ends garbage fuel' c.after t x rest c.keeps ne f small',
    )
