-- ===== src/Text/Compare.antt =====
-- `StrCaseCmp` and the case of ASCII letters.
use nicenet.Common.{ℕ, ◌+◌, ◌≤◌, ◌≡◌, ◌↔◌, ◌⊎◌, arith, [], ◌∷◌, length, Bytes}
use nicenet.Text.{lower, compare_loop, str_case_cmp}

-- The first is a capital letter of ASCII, whose codes are 65 to 90, and the second the small one.
abbrev pub IsPair : ℕ → ℕ → Type 0
IsPair x y = (65 ≤ x) × (x ≤ 90) × (y ≡ x + 32)

abbrev pub SameLetter : ℕ → ℕ → Type 0
SameLetter x y = (x ≡ y) ⊎ (IsPair x y ⊎ IsPair y x)

-- The same number of bytes, and byte for byte the same letters.
abbrev pub SameText : Bytes → Bytes → Type 0
SameText [] [] = Unit
SameText [] (y ∷ b) = ⊥
SameText (x ∷ a) [] = ⊥
SameText (x ∷ a) (y ∷ b) = SameLetter x y × SameText a b

lower-SameLetter : (x y : ℕ) → (lower x ≡ lower y) ↔ SameLetter x y
unfolding lower
lower-SameLetter x y = ground arith

SameText-length : (a b : Bytes) → SameText a b → length a ≡ length b
SameText-length [] [] h = omega arith
SameText-length [] (y ∷ b) h = absurd h
SameText-length (x ∷ a) [] h = absurd h
SameText-length (x ∷ a) (y ∷ b) h = omega (arith, SameText-length a b h.1)

compare_loop_iff : (a b : Bytes) → length a ≡ length b → (compare_loop a b ≡ 0) ↔ SameText a b
unfolding compare_loop
compare_loop_iff [] [] h = ground arith
compare_loop_iff [] (y ∷ b) h = absurd (omega arith)
compare_loop_iff (x ∷ a) [] h = absurd (omega arith)
compare_loop_iff (x ∷ a) (y ∷ b) h =
    ground (arith, lower-SameLetter x y, compare_loop_iff a b (omega arith))

-- 0 is returned exactly for two strings of one length whose bytes at each place are the same, or
-- a capital letter of ASCII and its small one.
pub str_case_cmp_iff : (a b : Bytes) → (str_case_cmp a b ≡ 0) ↔ SameText a b
unfolding str_case_cmp
str_case_cmp_iff a b = ground (arith, compare_loop_iff a b, SameText-length a b)
