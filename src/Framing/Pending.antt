-- ===== src/Framing/Pending.antt =====
-- What `m_PreMsg` holds between two reads: nothing, one to three bytes of a header, or the front
-- of a message whose header is whole.
use nicenet.Common.{
  ℕ, ◌+◌, ◌-◌, ◌≤◌, ◌<◌, ◌≡◌, refl, sym, ap, arith, true, [], ◌++◌, length, take, drop,
  length-append, take-append, drop-append, drop-append_ge, length-drop, take-append_le, All, Bytes,
  IsByte, le_bytes, of_le, le_bytes-of_le, ok, le→leb, le→ltb, lt→ltb, lt→leb, All-append, All-drop,
  le_bytes-IsByte, ltb, if◌then◌else◌,
}
use nicenet.Message.{Message, null, inline, heap, alloc, splice, slice}
use native.Mathlib.Decide.{dec_lt}
use nicenet.Message.Read.{reader}
use nicenet.Message.RoundTrip.{length-alloc, from_buffer_lem}
use nicenet.Framing.{
  Session, finish, again, post, deliver, keep, msg_size, poke, start_long, parse_fresh,
}

-- A whole message: a header that counts it, from the header and the number up to `MSG_SIZE`.
pub record IsFrame (f : Bytes) : Type 0 where
  pub counted : of_le (take 4 f) ≡ length f
  pub least : 6 ≤ length f
  pub most : length f ≤ 32768
  pub bytes : All IsByte f

pub data Pending (prev : Message) (t : Bytes) : Type 0 where
  nothing : prev.buff ≡ null → t ≡ [] → Pending prev t
  header :
      (free : Bytes)
      → prev.buff ≡ inline
      → prev.read_point ≡ length t
      → le_bytes 4 prev.write_point ≡ t ++ free
      → length t < 4
      → Pending prev t
  body :
      (room : Bytes)
      → prev.buff ≡ heap (t ++ room)
      → prev.write_point ≡ length t
      → of_le (take 4 t) ≡ length (t ++ room)
      → 4 ≤ length t
      → length t < length (t ++ room)
      → length (t ++ room) ≤ 32768
      → Pending prev t

pub splice_at :
    (off : ℕ) (front src room : Bytes)
    → off ≡ length front
    → length src ≤ length room
    → splice off src (front ++ room) ≡ ok (front ++ (src ++ drop (length src) room))
unfolding splice
splice_at off front src room e h =
    let sum = length-append front room in
    let gap : off + length src - length front ≡ length src = omega arith in
    rw (le→leb (off + length src) (length (front ++ room)) (omega arith)) (
      ap ok (
        rw (take-append off front room e)
          (rw (drop-append_ge (off + length src) front room (omega arith)) (rw gap))))

pub slice_at :
    (off n : ℕ) (front src rest : Bytes)
    → off ≡ length front
    → n ≡ length src
    → slice off n (front ++ (src ++ rest)) ≡ ok src
unfolding slice
slice_at off n front src rest e h =
    let sum = length-append front (src ++ rest) in
    let sum' = length-append src rest in
    rw (le→leb (off + n) (length (front ++ (src ++ rest))) (omega arith))
      (ap ok (rw (drop-append off front (src ++ rest) e) (take-append n src rest h)))

-- A front of a message, not empty or empty, that later reads can complete.
pub record IsFront (t : Bytes) : Type 0 where
  pub bytes : All IsByte t
  pub short : 4 ≤ length t → (length t < of_le (take 4 t)) × (of_le (take 4 t) ≤ 32768)

-- A partial header that arrives first.
pub fresh_header :
    (garbage : ℕ → ℕ) (s : Session) (t : Bytes)
    → All IsByte t
    → length t < 4
    → (s' : Session) × (parse_fresh garbage s t ≡ ok (finish true s'))
      × (s'.posted ≡ s.posted)
      × Pending s'.prev t
unfolding parse_fresh poke
fresh_header garbage s t bytes h =
    let old = le_bytes 4 s.prev.write_point in
    let free = drop (length t) old in
    let len : length (t ++ free) ≡ 4 =
      omega (arith, length-append t free, length-drop (length t) old) in
    let laid : le_bytes 4 (of_le (t ++ free)) ≡ t ++ free = rw len at (
      le_bytes-of_le (t ++ free) (
        All-append IsByte t free bytes
          (All-drop IsByte (length t) old (le_bytes-IsByte 4 s.prev.write_point)))) in
    (
      keep (record { buff = inline; write_point = of_le (t ++ free); read_point = length t }) s,
      rw (lt→ltb (length t) 4 h) (rw (splice_at 0 [] t old refl (omega arith))),
      refl,
      header free refl refl laid h,
    )

-- The front of a message with a whole header that arrives first.
pub fresh_body :
    (garbage : ℕ → ℕ) (s : Session) (t : Bytes)
    → 4 ≤ length t
    → length t < of_le (take 4 t)
    → of_le (take 4 t) ≤ 32768
    → (s' : Session) × (parse_fresh garbage s t ≡ ok (finish true s'))
      × (s'.posted ≡ s.posted)
      × Pending s'.prev t
unfolding parse_fresh start_long
fresh_body garbage s t h lt most =
    let n = of_le (take 4 t) in
    let room = drop (length t) (alloc garbage n) in
    let len = length-alloc garbage n in
    let whole : length (t ++ room) ≡ n =
      omega (arith, length-append t room, length-drop (length t) (alloc garbage n)) in
    (
      keep (record s.prev { buff = heap (t ++ room); write_point = length t }) s,
      rw (le→ltb (length t) 4 h) (
          rw (le→ltb msg_size n most) (
            rw (lt→leb n (length t) lt)
              (rw (splice_at 0 [] t (alloc garbage n) refl (omega arith))))),
      refl,
      body room refl refl (sym whole) h (omega arith) (omega arith),
    )

pub fresh_front :
    (garbage : ℕ → ℕ) (s : Session) (t : Bytes)
    → IsFront t
    → (s' : Session) × (parse_fresh garbage s t ≡ ok (finish true s'))
      × (s'.posted ≡ s.posted)
      × Pending s'.prev t
fresh_front garbage s t f = elim (dec_lt (length t) 4) [
  | yes h ↦ fresh_header garbage s t f.bytes h
  | no h ↦ let (lt, most) = f.short (omega arith) in fresh_body garbage s t (omega arith) lt most
]

-- A whole message in front of what else was read.
pub fresh_frame :
    (garbage : ℕ → ℕ) (s : Session) (f rest : Bytes)
    → IsFrame f
    → parse_fresh garbage s (f ++ rest)
      ≡ ok (
          if ltb 0 (length rest)
          then again (post (reader 6 f 6) s) rest
          else finish true (post (reader 6 f 6) s))
unfolding parse_fresh deliver
fresh_frame garbage s f rest h =
    let sum = length-append f rest in
    let n = of_le (take 4 (f ++ rest)) in
    let counted : n ≡ length f = rw (take-append_le 4 f rest (omega (arith, h.least))) h.counted in
    let same : ltb (length f) (length (f ++ rest)) ≡ ltb 0 (length rest) = ground arith in
    rw (le→ltb (length (f ++ rest)) 4 (omega (arith, h.least))) (
      rw counted (
        rw (le→ltb msg_size (length f) h.most) (
          rw (le→leb (length f) (length (f ++ rest)) (omega arith)) (
            rw (from_buffer_lem garbage f rest h.least (omega (arith, h.most)))
              (rw (same, drop-append (length f) f rest refl))))))
