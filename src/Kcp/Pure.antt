-- ===== src/Kcp/Pure.antt =====
-- A datagram outside the KCP stream, whose length word the handlers take from the datagram.
use nicenet.Common.{
  ℕ, suc, ◌+◌, ◌-◌, ◌^◌, ◌≤◌, ◌<◌, ◌≡◌, ◌⊎◌, refl, sym, ap, ◌∙◌, arith, [], ◌∷◌, ◌++◌, ltb, leb,
  le→leb, lt→leb, lt→ltb, le→ltb, ltb→lt, ltb→le, leb→le, leb→lt, length, take, drop,
  take-append-drop, length-append, length-take, Bytes, of_le, Result, ok, fault, out_of_bounds,
  ◌>>=◌, Bool-cases, inl, inr,
}
use nicenet.Common.Text.{bytes_eq}
use nicenet.Message.{Message, alloc, splice, slice, build_buff, from_buffer}
use nicenet.Message.RoundTrip.{length-alloc, from_buffer_lem}
use nicenet.Message.Read.{reader}
use nicenet.Handshake.{part}
use nicenet.Kcp.{stops, hands, receive, receive_pure}

from_buffer_over :
    (garbage : ℕ → ℕ) (src : Bytes) (size : ℕ)
    → 6 ≤ size
    → length src < size
    → from_buffer garbage src size ≡ fault out_of_bounds
unfolding from_buffer build_buff splice slice
from_buffer_over garbage src size h over =
    let inside =
      le→leb 4 (length (alloc garbage size)) (omega (arith, length-alloc garbage size)) in
    let outside = lt→leb (0 + size) (length src) (omega arith) in
    rw (le→ltb size 6 h) (rw (inside, splice) (rw outside refl))

from_buffer_front :
    (garbage : ℕ → ℕ) (src : Bytes) (size : ℕ)
    → 6 ≤ size
    → size < 2 ^ 32
    → size ≤ length src
    → from_buffer garbage src size ≡ ok (reader 6 (take size src) 6)
from_buffer_front garbage src size h small fits =
    let whole = take-append-drop size src in
    let sized : length (take size src) ≡ size = omega (arith, length-take size src) in
    ap (λ (s : Bytes). from_buffer garbage s size) (sym whole)
    ∙ ap (from_buffer garbage (take size src ++ drop size src)) (sym sized)
    ∙ from_buffer_lem garbage (take size src) (drop size src) (omega arith) (omega arith)

-- A datagram of the kind 4, of `n` bytes and with a length of at least 6, in a buffer of
-- `length rest + 1` bytes. If the datagram goes on behind that length, the handler stops for good.
-- If it does not and the length is more than the buffer's, the handler reads past its end. If
-- the length is neither, it hands on as many bytes as the length says, from the second byte on,
-- also where the datagram has fewer.
pub receive_pure_cases :
    (garbage : ℕ → ℕ) (rest : Bytes) (n : ℕ)
    → 65 < n
    → 6 ≤ of_le (part 64 4 rest)
    → of_le (part 64 4 rest) < 2 ^ 32
    → ((of_le (part 64 4 rest) < n - 65) × (receive garbage (4 ∷ rest) n ≡ ok stops))
      ⊎ ((n - 65 ≤ of_le (part 64 4 rest))
            × (suc (length rest) < of_le (part 64 4 rest))
            × (receive garbage (4 ∷ rest) n ≡ fault out_of_bounds)
          ⊎ (n - 65 ≤ of_le (part 64 4 rest))
            × (of_le (part 64 4 rest) ≤ suc (length rest))
            × (receive garbage (4 ∷ rest) n
                ≡ ok (
                    hands
                      (take 64 rest)
                      (reader 6 (take (of_le (part 64 4 rest)) (rest ++ 0 ∷ [])) 6))))
unfolding receive receive_pure bytes_eq
receive_pure_cases garbage rest n long least small =
    let len = of_le (part 64 4 rest) in
    let kind = lt→ltb 65 n long in
    let memory = length-append rest (0 ∷ []) in
    let msg = λ (r : Result Message). (r >>= λ m. ok (hands (take 64 rest) m)) in
    elim (Bool-cases (ltb len (n - 1 - 64))) [
      | inl less ↦ inl (omega (arith, ltb→lt len (n - 1 - 64) less), rw kind (rw less refl))
      | inr more ↦
          let behind : n - 65 ≤ len = omega (arith, ltb→le len (n - 1 - 64) more) in
          elim (Bool-cases (leb len (length rest + 1))) [
            | inl fits ↦
                let inside = leb→le len (length rest + 1) fits in
                inr (
                  inr (
                    behind,
                    omega (arith, inside),
                    rw kind (
                        rw more (
                          ap msg (
                            from_buffer_front garbage (rest ++ 0 ∷ []) len least small
                              (omega (arith, memory, inside))))),
                  ))
            | inr over ↦
                let outside = leb→lt len (length rest + 1) over in
                inr (
                  inl (
                    behind,
                    omega (arith, outside),
                    rw kind (
                        rw more (
                          ap msg (
                            from_buffer_over garbage (rest ++ 0 ∷ []) len least
                              (omega (arith, memory, outside))))),
                  ))
          ]
    ]
