-- ===== src/Framing/Growing.antt =====
-- A read that leaves a message unfinished.
use nicenet.Common.{
  ℕ, ◌+◌, ◌-◌, ◌≤◌, ◌<◌, ◌≡◌, refl, sym, ap, ◌∙◌, arith, true, [], ◌++◌, append_assoc, length, take,
  drop, length-append, length-take, length-drop, take-append-drop, take-append, take-append_le, All,
  All-append_right, Bytes, IsByte, le_bytes, of_le, le_bytes-of_le, Result, ok, subst, All-append,
  All-append_left, All-drop, le_bytes-IsByte,
}
use native.Mathlib.Decide.{dec_lt}
use nicenet.Message.{inline, heap, alloc}
use nicenet.Message.RoundTrip.{length-alloc}
use nicenet.Framing.{Session, Step, finish, keep, parse_body, parse_header, parse_at, parse_step}
use nicenet.Framing.Pending.{IsFront, Pending, nothing, header, body, fresh_front}
use nicenet.Framing.Frames.{parse_step-null}
use nicenet.Framing.Rest.{body_grows}
use nicenet.Framing.Head.{header_completes, header_grows, parse_at_pending}

-- The session after a step that keeps the front `t`.
abbrev pub Keeps : Result Step → Session → Bytes → Type 0
Keeps r s t =
    (s' : Session) × (r ≡ ok (finish true s')) × (s'.posted ≡ s.posted) × Pending s'.prev t

pub body-Keeps :
    (s : Session) (u room c y : Bytes)
    → s.prev.write_point ≡ length u
    → of_le (take 4 (u ++ room)) ≡ length (u ++ room)
    → length (u ++ room) ≤ 32768
    → length c ≤ length u
    → length y < length room
    → 4 ≤ length u
    → length (c ++ y) ≤ 16384
    → Keeps (parse_body s (u ++ room) (c ++ y) (length c)) s (u ++ y)
body-Keeps s u room c y wp counted most hc hy least small =
    let room' = drop (length y) room in
    let sums = length-append u room in
    let sumy = length-append u y in
    let sumr = length-append (u ++ y) room' in
    let left = length-drop (length y) room in
    let head : of_le (take 4 (u ++ y)) ≡ length (u ++ room) =
      rw (take-append_le 4 u y least) (rw (take-append_le 4 u room least) at counted) in
    (
      keep (record s.prev { buff = heap ((u ++ y) ++ room'); write_point = length (u ++ y) }) s,
      body_grows s u room c y wp counted most hc hy small,
      refl,
      body room' refl refl (omega arith) (omega arith) (omega arith) (omega arith),
    )

pub header-Keeps :
    (garbage : ℕ → ℕ) (s : Session) (t free x : Bytes)
    → s.prev.buff ≡ inline
    → s.prev.read_point ≡ length t
    → le_bytes 4 s.prev.write_point ≡ t ++ free
    → length t + length x < 4
    → All IsByte (t ++ x)
    → Keeps (parse_header garbage s x) s (t ++ x)
header-Keeps garbage s t free x e rp laid h bytes =
    let free' = drop (length x) free in
    let len = length-append t free in
    let whole : length (t ++ (x ++ free')) ≡ 4 = omega (
      arith,
      length-append t (x ++ free'),
      length-append x free',
      length-drop (length x) free,
      ap length laid,
    ) in
    let free_bytes =
      All-append_right IsByte t free
        (subst (All IsByte) laid (le_bytes-IsByte 4 s.prev.write_point)) in
    let all_bytes : All IsByte (t ++ (x ++ free')) =
      rw (← append_assoc t x free')
        (All-append IsByte (t ++ x) free' bytes (All-drop IsByte (length x) free free_bytes)) in
    let laid' : le_bytes 4 (of_le (t ++ (x ++ free'))) ≡ (t ++ x) ++ free' =
      rw whole at (le_bytes-of_le (t ++ (x ++ free')) all_bytes) ∙ sym (append_assoc t x free') in
    (
      keep (record s.prev { write_point = of_le (t ++ (x ++ free')); read_point = length (t ++ x) })
          s,
      header_grows garbage s t free x rp laid h,
      refl,
      header free' e refl laid' (omega (arith, length-append t x)),
    )

-- The read `c ++ y` ends the header with `c`, and the message goes on with `y`.
pub header_then_body :
    (garbage : ℕ → ℕ) (s : Session) (t free c y : Bytes)
    → s.prev.read_point ≡ length t
    → le_bytes 4 s.prev.write_point ≡ t ++ free
    → length t + length c ≡ 4
    → IsFront (t ++ (c ++ y))
    → length (c ++ y) ≤ 16384
    → Keeps (parse_header garbage s (c ++ y)) s (t ++ (c ++ y))
header_then_body garbage s t free c y rp laid four f small =
    let u = t ++ c in
    let n = of_le u in
    let room = drop 4 (alloc garbage n) in
    let assoc = append_assoc t c y in
    let lenu = length-append t c in
    let lenw = length-append u y in
    let lenr = length-drop 4 (alloc garbage n) in
    let lena = length-alloc garbage n in
    let len = length-append u room in
    let front : take 4 (u ++ y) ≡ u = take-append 4 u y (omega arith) in
    let f' : IsFront (u ++ y) = rw assoc f in
    let (lt, most) = rw front at (f'.short (omega arith)) in
    let bytes = All-append_left IsByte u y f'.bytes in
    let counted : of_le (take 4 (u ++ room)) ≡ length (u ++ room) =
      rw (take-append 4 u room (omega arith)) (omega arith) in
    let s₁ = keep (record { buff = heap (u ++ room); write_point = 4; read_point = 4 }) s in
    let (s', step, posted, p) =
      body-Keeps s₁ u room c y (omega arith) counted (omega arith) (omega arith) (omega arith)
        (omega arith) small in
    (
      s',
      header_completes garbage s t free c y rp laid four bytes (omega arith) small ∙ step,
      posted,
      rw (← assoc) p,
    )

pub header_long :
    (garbage : ℕ → ℕ) (s : Session) (t free x : Bytes)
    → s.prev.read_point ≡ length t
    → le_bytes 4 s.prev.write_point ≡ t ++ free
    → length t < 4
    → 4 ≤ length t + length x
    → IsFront (t ++ x)
    → length x ≤ 16384
    → Keeps (parse_header garbage s x) s (t ++ x)
header_long garbage s t free x rp laid short h f small =
    let k = 4 - length t in
    let cut = take-append-drop k x in
    subst (λ z. Keeps (parse_header garbage s z) s (t ++ z)) cut
      (header_then_body garbage s t free (take k x) (drop k x) rp laid
        (omega (arith, length-take k x)) (rw cut f) (rw cut small))

-- A read that goes on with the front `t`, and does not end the message, is kept behind it.
pub parse_step_grows :
    (garbage : ℕ → ℕ) (s : Session) (t x : Bytes)
    → Pending s.prev t
    → IsFront (t ++ x)
    → length x ≤ 16384
    → Keeps (parse_step garbage s x) s (t ++ x)
unfolding parse_at
parse_step_grows garbage s t x (nothing e none) f small =
    let (s', step, posted, p) = fresh_front garbage s x (rw none at f) in
    (s', parse_step-null garbage s x e small ∙ step, posted, rw none p)
parse_step_grows garbage s t x (header free e rp laid short) f small =
    rw (parse_at_pending garbage s x e small) (elim (dec_lt (length t + length x) 4) [
      | yes h ↦ header-Keeps garbage s t free x e rp laid h f.bytes
      | no h ↦ header_long garbage s t free x rp laid short (omega arith) f small
    ])
parse_step_grows garbage s t x (body room e wp counted least lt most) f small =
    let head = take-append_le 4 t x least in
    let head' = take-append_le 4 t room least in
    let (less, _) = rw head at (f.short (omega (arith, length-append t x))) in
    rw (parse_at_pending garbage s x e small) (
      body-Keeps s t room [] x wp (rw head' counted) most (omega arith)
        (omega (arith, length-append t x, length-append t room)) least small)
