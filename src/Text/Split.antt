-- ===== src/Text/Split.antt =====
-- `splitString` and the pieces of a string.
use nicenet.Common.{
  ℕ, zero, suc, ◌+◌, ◌-◌, ◌≤◌, ◌<◌, ◌≡◌, ◌≢◌, refl, ap, ◌∙◌, arith, Option, none, some, List, [],
  ◌∷◌, ◌++◌, append_assoc, length, take, drop, drop-drop, length-drop, All, Bytes, ◌==◌,
  if◌then◌else◌, true, false, Bool-cases, inl, inr,
}
use nicenet.Text.{find_at, find, split_loop, split_string}

-- The pieces by recursion on the string.
abbrev pub extend : ℕ → List Bytes → List Bytes
extend x [] = (x ∷ []) ∷ []
extend x (p ∷ ps) = (x ∷ p) ∷ ps

unfoldable pub pieces : ℕ → Bytes → List Bytes
pieces c [] = [] ∷ []
pieces c (x ∷ xs) = if x == c then [] ∷ pieces c xs else extend x (pieces c xs)

abbrev FoundAt : ℕ → Bytes → ℕ → Option ℕ → Type 0
FoundAt c xs i none = pieces c xs ≡ xs ∷ []
FoundAt c xs i (some p) =
    (i ≤ p) × (p < i + length xs) × (pieces c xs ≡ take (p - i) xs ∷ pieces c (drop (p - i + 1) xs))

FoundAt-skip :
    (c x : ℕ) (xs : Bytes) (i : ℕ) (r : Option ℕ)
    → (x == c) ≡ false
    → FoundAt c xs (suc i) r
    → FoundAt c (x ∷ xs) i r
unfolding pieces
FoundAt-skip c x xs i none e h = rw e (rw h)
FoundAt-skip c x xs i (some p) e (least, less, cut) =
    let step : p - i ≡ suc (p - suc i) = omega arith in
    let more : suc (p - suc i) + 1 ≡ suc (p - suc i + 1) = omega arith in
    (omega arith, omega arith, rw e (rw step (rw more (rw cut))))

FoundAt-here : (c x : ℕ) (xs : Bytes) (i : ℕ) → (x == c) ≡ true → FoundAt c (x ∷ xs) i (some i)
unfolding pieces
FoundAt-here c x xs i e =
    let none_left : i - i ≡ 0 = omega arith in (omega arith, omega arith, rw e (rw none_left))

find_at-FoundAt : (c : ℕ) (xs : Bytes) (i : ℕ) → FoundAt c xs i (find_at c xs i)
unfolding find_at
find_at-FoundAt c [] i = unfold pieces in refl
find_at-FoundAt c (x ∷ xs) i = elim (Bool-cases (x == c)) [
  | inl e ↦ rw e (FoundAt-here c x xs i e)
  | inr e ↦ rw e (FoundAt-skip c x xs i (find_at c xs (suc i)) e (find_at-FoundAt c xs (suc i)))
]

split_loop-pieces :
    (fuel : ℕ) (src : Bytes) (c pos₁ : ℕ) (r : Option ℕ) (strvec : List Bytes)
    → pos₁ ≤ length src
    → FoundAt c (drop pos₁ src) pos₁ r
    → length src - pos₁ < fuel
    → split_loop fuel src c pos₁ r strvec ≡ some (strvec ++ pieces c (drop pos₁ src))
unfolding split_loop
split_loop-pieces zero src c pos₁ r strvec h f lt = absurd (omega arith)
split_loop-pieces (suc fuel) src c pos₁ none strvec h f lt = rw f
split_loop-pieces (suc fuel) src c pos₁ (some p) strvec h (least, less, cut) lt =
    let len = length-drop pos₁ src in
    let behind : drop (p - pos₁ + 1) (drop pos₁ src) ≡ drop (p + 1) src =
      drop-drop pos₁ (p - pos₁ + 1) src
      ∙ ap (λ (k : ℕ). drop k src) (let e : pos₁ + (p - pos₁ + 1) ≡ p + 1 = omega arith in e) in
    split_loop-pieces fuel src c (p + 1) (find c src (p + 1))
      (strvec ++ take (p - pos₁) (drop pos₁ src) ∷ []) (omega arith)
      (find_at-FoundAt c (drop (p + 1) src) (p + 1)) (omega arith)
    ∙ ap some (
        append_assoc strvec (take (p - pos₁) (drop pos₁ src) ∷ []) (pieces c (drop (p + 1) src))
        ∙ rw (cut, behind))

pub split_string-pieces : (src : Bytes) (c : ℕ) → split_string src c ≡ some (pieces c src)
unfolding split_string
split_string-pieces src c =
    split_loop-pieces (length src + 2) src c 0 (find c src 0) [] (omega arith)
      (find_at-FoundAt c src 0) (omega arith)

-- The pieces with the character between them.
abbrev pub intercalate : ℕ → List Bytes → Bytes
intercalate c [] = []
intercalate c (p ∷ []) = p
intercalate c (p ∷ q ∷ ps) = p ++ (c ∷ intercalate c (q ∷ ps))

abbrev pub Lacks : ℕ → Bytes → Type 0
Lacks c = All (λ x. x ≢ c)

record IsSplit (c : ℕ) (src : Bytes) (ps : List Bytes) : Type 0 where
  joined : intercalate c ps ≡ src
  clean : All (Lacks c) ps
  some_piece : ps ≢ []

IsSplit-cut :
    (c : ℕ) (xs : Bytes) (ps : List Bytes) → IsSplit c xs ps → IsSplit c (c ∷ xs) ([] ∷ ps)
IsSplit-cut c xs [] h = absurd (h.some_piece refl)
IsSplit-cut c xs (p ∷ ps) h = record {
  joined = ap (◌∷◌ c) h.joined;
  clean = (tt, h.clean);
  some_piece = λ e. cc;
}

IsSplit-extend :
    (c x : ℕ) (xs : Bytes) (ps : List Bytes)
    → x ≢ c
    → IsSplit c xs ps
    → IsSplit c (x ∷ xs) (extend x ps)
IsSplit-extend c x xs [] ne h = absurd (h.some_piece refl)
IsSplit-extend c x xs (p ∷ []) ne h = record {
  joined = ap (◌∷◌ x) h.joined;
  clean = ((ne, h.clean.0), tt);
  some_piece = λ e. cc;
}
IsSplit-extend c x xs (p ∷ q ∷ ps) ne h = record {
  joined = ap (◌∷◌ x) h.joined;
  clean = ((ne, h.clean.0), h.clean.1);
  some_piece = λ e. cc;
}

pieces-IsSplit : (c : ℕ) (src : Bytes) → IsSplit c src (pieces c src)
unfolding pieces
pieces-IsSplit c [] = record { joined = refl; clean = (tt, tt); some_piece = λ e. cc }
pieces-IsSplit c (x ∷ xs) = elim (Bool-cases (x == c)) [
  | inl e ↦
      let same : x ≡ c = ground arith in
      rw (e, same) (IsSplit-cut c xs (pieces c xs) (pieces-IsSplit c xs))
  | inr e ↦ rw e (IsSplit-extend c x xs (pieces c xs) (ground arith) (pieces-IsSplit c xs))
]

-- `splitString` ends, with at least one piece; no piece holds the separator, and the pieces with
-- the separator between them are the string.
pub split_string_lem :
    (src : Bytes) (c : ℕ)
    → (ps : List Bytes) × (split_string src c ≡ some ps)
      × (ps ≢ [])
      × All (Lacks c) ps
      × (intercalate c ps ≡ src)
split_string_lem src c =
    let h = pieces-IsSplit c src in
    (pieces c src, split_string-pieces src c, h.some_piece, h.clean, h.joined)
