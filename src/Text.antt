-- ===== src/Text.antt =====
-- Common.hpp: `splitString` and `StrCaseCmp`. A string is the list of its bytes.
pub mod Split
pub mod Join
pub mod Compare
mod Examples
use nicenet.Common.{
  ℕ, zero, suc, ◌+◌, ◌-◌, Bool, Option, none, some, List, [], ◌∷◌, ◌++◌, ltb, leb, ◌==◌, ◌&&◌, not,
  if◌then◌else◌, length, take, drop, Bytes,
}

-- `std::string::find` for one character, on what stands from index `i` on.
unfoldable pub find_at : ℕ → Bytes → ℕ → Option ℕ
find_at c [] i = none
find_at c (x ∷ xs) i = let rest = find_at c xs (suc i) in if x == c then some i else rest

abbrev pub find : ℕ → Bytes → ℕ → Option ℕ
find c src pos = find_at c (drop pos src) pos

-- The loop of `splitString`; `none` means that the fuel ran out.
unfoldable pub split_loop : ℕ → Bytes → ℕ → ℕ → Option ℕ → List Bytes → Option (List Bytes)
split_loop zero src c pos₁ pos₂ strvec = none
split_loop (suc fuel) src c pos₁ none strvec = some (strvec ++ drop pos₁ src ∷ [])
split_loop (suc fuel) src c pos₁ (some pos₂) strvec =
    split_loop fuel src c (pos₂ + 1) (find c src (pos₂ + 1))
      (strvec ++ take (pos₂ - pos₁) (drop pos₁ src) ∷ [])

unfoldable pub split_string : Bytes → ℕ → Option (List Bytes)
unfolding split_loop find_at
split_string src c = split_loop (length src + 2) src c 0 (find c src 0) []

-- `x = a[i] - ('A' - 'a')` on a capital letter
unfoldable pub lower : ℕ → ℕ
lower x = if leb b'A' x && leb x b'Z' then x + 32 else x

unfoldable pub compare_loop : Bytes → Bytes → ℕ
unfolding lower
compare_loop [] b = 0
compare_loop (x ∷ a) [] = 0
compare_loop (x ∷ a) (y ∷ b) =
    let rest = compare_loop a b in if not (lower x == lower y) then 1 else rest

-- `StrCaseCmp`: 0 for strings that are the same but for case
unfoldable pub str_case_cmp : Bytes → Bytes → ℕ
unfolding compare_loop
str_case_cmp a b = if not (length a == length b) then 1 else compare_loop a b
