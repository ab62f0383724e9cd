-- ===== src/Handshake/Checks.antt =====
-- What `checkServerSign` has checked.
use nicenet.Common.{
  ℕ, ◌+◌, ◌-◌, ◌%◌, ◌^◌, ◌≤◌, ◌<◌, ◌≡◌, ◌≢◌, ◌↔◌, refl, sym, ap, ◌∙◌, arith, Bool, true, false, not,
  ◌||◌, length, take, drop, length-take, length-drop, All, All-take, All-drop, Bytes, IsByte, of_le,
  ltb, ltb→le, if◌then◌else◌,
}
use nicenet.Common.Text.{bytes_eq}
use nicenet.Common.Table.{bytes_eq_iff}
use nicenet.Handshake.{Crypto, part, same_words, is_far, check_server_sign}
use nicenet.Handshake.Fields.{same_words_bytes, same_words_self}

-- `sha3` fills `HASH_SIZE` bytes.
pub record IsHash (crypto : Crypto) : Type 0 where
  pub size : (m : Bytes) → length (crypto.sha3 m) ≡ 32
  pub bytes : (m : Bytes) → All IsByte (crypto.sha3 m)

-- The greeting is another server's than the one with `own`, has the hash of its key and time, and
-- is signed with its key.
pub record IsSigned (crypto : Crypto) (own received : Bytes) : Type 0 where
  pub other : own ≢ take 64 received
  pub hashed : crypto.sha3 (take 72 received) ≡ part 72 32 received
  pub verified :
      crypto.verify (take 64 received) (part 72 32 received) (part 104 64 received) ≡ true

abbrev pub verdict : Bool → Bool → Bool → Bool → ℕ
verdict same hashed verified far =
    if same then 1 else if not hashed then 1 else if not verified then 1 else if far then 2 else 0

verdict_passes :
    (same hashed verified far : Bool)
    → verdict same hashed verified far ≢ 1
    → (same ≡ false) × (hashed ≡ true) × (verified ≡ true)
verdict_passes true hashed verified far ne = absurd (ne refl)
verdict_passes false false verified far ne = absurd (ne refl)
verdict_passes false true false far ne = absurd (ne refl)
verdict_passes false true true far ne = (refl, refl, refl)

verdict_zero :
    (same hashed verified far : Bool) → verdict same hashed verified far ≡ 0 → far ≡ false
verdict_zero true hashed verified far e = absurd (omega (arith, e))
verdict_zero false false verified far e = absurd (omega (arith, e))
verdict_zero false true false far e = absurd (omega (arith, e))
verdict_zero false true true true e = absurd (omega (arith, e))
verdict_zero false true true false e = refl

or_false : (a b : Bool) → (a || b) ≡ false → (a ≡ false) × (b ≡ false)
or_false true b e = (e, ground arith)
or_false false b e = (refl, e)

near_lem :
    (now t : ℕ)
    → 10 ≤ t
    → t + 10 < 2 ^ 64
    → (ltb ((t + 10) % 2 ^ 64) now || ltb now ((t + 2 ^ 64 - 10) % 2 ^ 64)) ≡ false
    → (now ≤ t + 10) × (t ≤ now + 10)
near_lem now t low high e =
    let (late, early) =
      or_false (ltb ((t + 10) % 2 ^ 64) now) (ltb now ((t + 2 ^ 64 - 10) % 2 ^ 64)) e in
    (
      omega (arith, ltb→le ((t + 10) % 2 ^ 64) now late),
      omega (arith, ltb→le now ((t + 2 ^ 64 - 10) % 2 ^ 64) early),
    )

module _ (crypto : Crypto) (own received : Bytes) (now : ℕ) where
  verdict_lem :
      check_server_sign crypto own now received
      ≡ verdict
          (bytes_eq own (take 64 received))
          (same_words 4 (crypto.sha3 (take 72 received)) (part 72 32 received))
          (crypto.verify (take 64 received) (part 72 32 received) (part 104 64 received))
          (is_far now received)
  unfolding check_server_sign
  verdict_lem = refl

  pub signed_verdict :
      IsSigned crypto own received
      → check_server_sign crypto own now received ≡ (if is_far now received then 2 else 0)
  signed_verdict s =
      let differs : bytes_eq own (take 64 received) ≡ false =
        ground (arith, bytes_eq_iff own (take 64 received), s.other) in
      let words : same_words 4 (crypto.sha3 (take 72 received)) (part 72 32 received) ≡ true =
        ap (same_words 4 (crypto.sha3 (take 72 received))) (sym s.hashed)
        ∙ same_words_self 4 (crypto.sha3 (take 72 received)) in
      verdict_lem
      ∙ ap
          (λ (b : Bool).
            verdict b (same_words 4 (crypto.sha3 (take 72 received)) (part 72 32 received))
              (crypto.verify (take 64 received) (part 72 32 received) (part 104 64 received))
              (is_far now received))
          differs
      ∙ ap
          (λ (b : Bool).
            verdict false b
              (crypto.verify (take 64 received) (part 72 32 received) (part 104 64 received))
              (is_far now received))
          words
      ∙ ap (λ (b : Bool). verdict false true b (is_far now received)) s.verified

  -- On a whole greeting the client goes on exactly if it is signed, whatever its clock says.
  pub check_server_sign_iff :
      IsHash crypto
      → All IsByte received
      → length received ≡ 168
      → (check_server_sign crypto own now received ≢ 1) ↔ IsSigned crypto own received
  check_server_sign_iff hash bytes size = (
    λ ne. passed (
        verdict_passes (bytes_eq own (take 64 received))
          (same_words 4 (crypto.sha3 (take 72 received)) (part 72 32 received))
          (crypto.verify (take 64 received) (part 72 32 received) (part 104 64 received))
          (is_far now received) (λ e. ne (verdict_lem ∙ e))),
    λ s e. not_one (is_far now received) (sym (signed_verdict s) ∙ e),
  )
    where
      not_one : (b : Bool) → ◌≢◌ {A = ℕ} (if b then 2 else 0) 1
      not_one true e = omega (arith, e)
      not_one false e = omega (arith, e)

      passed :
          (bytes_eq own (take 64 received) ≡ false)
            × (same_words 4 (crypto.sha3 (take 72 received)) (part 72 32 received) ≡ true)
            × (crypto.verify (take 64 received) (part 72 32 received) (part 104 64 received) ≡ true)
          → IsSigned crypto own received
      passed (differs, words, verified) = record {
        other = λ e. ground (arith, bytes_eq_iff own (take 64 received), differs, e);
        hashed =
            same_words_bytes 4 (crypto.sha3 (take 72 received)) (part 72 32 received)
              (hash.bytes (take 72 received))
              (All-take IsByte 32 (drop 72 received) (All-drop IsByte 72 received bytes))
              (hash.size (take 72 received))
              (omega (arith, length-take 32 (drop 72 received), length-drop 72 received)) words;
        verified = verified;
      }

  -- The result 0 says besides that the clocks agree to within ten, for a server time that is not
  -- within ten of either end of its range.
  pub check_server_sign_zero :
      check_server_sign crypto own now received ≡ 0
      → 10 ≤ of_le (part 64 8 received)
      → of_le (part 64 8 received) + 10 < 2 ^ 64
      → (now ≤ of_le (part 64 8 received) + 10) × (of_le (part 64 8 received) ≤ now + 10)
  unfolding is_far
  check_server_sign_zero e low high = near_lem now (of_le (part 64 8 received)) low high (
      verdict_zero (bytes_eq own (take 64 received))
        (same_words 4 (crypto.sha3 (take 72 received)) (part 72 32 received))
        (crypto.verify (take 64 received) (part 72 32 received) (part 104 64 received))
        (is_far now received) (sym verdict_lem ∙ e))
