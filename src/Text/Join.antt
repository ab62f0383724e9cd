-- ===== src/Text/Join.antt =====
-- `splitString` on pieces that were joined.
use nicenet.Common.{
  ℕ, ◌≡◌, refl, ap, ◌∙◌, arith, some, List, [], ◌∷◌, ◌++◌, All, Bytes, ◌==◌, true, false,
}
use nicenet.Text.{split_string}
use nicenet.Text.Split.{pieces, split_string-pieces, intercalate, Lacks}

pieces-Lacks : (c : ℕ) (p : Bytes) → Lacks c p → pieces c p ≡ p ∷ []
unfolding pieces
pieces-Lacks c [] h = refl
pieces-Lacks c (x ∷ p) h =
    let other : (x == c) ≡ false = ground (arith, h.0) in rw other (rw (pieces-Lacks c p h.1) refl)

pieces_cut : (c : ℕ) (p xs : Bytes) → Lacks c p → pieces c (p ++ (c ∷ xs)) ≡ p ∷ pieces c xs
unfolding pieces
pieces_cut c [] xs h = let same : (c == c) ≡ true = ground arith in rw same refl
pieces_cut c (x ∷ p) xs h =
    let other : (x == c) ≡ false = ground (arith, h.0) in rw other (rw (pieces_cut c p xs h.1) refl)

pieces-intercalate :
    (c : ℕ) (p : Bytes) (ps : List Bytes)
    → All (Lacks c) (p ∷ ps)
    → pieces c (intercalate c (p ∷ ps)) ≡ p ∷ ps
pieces-intercalate c p [] h = pieces-Lacks c p h.0
pieces-intercalate c p (q ∷ ps) h =
    pieces_cut c p (intercalate c (q ∷ ps)) h.0 ∙ ap (◌∷◌ p) (pieces-intercalate c q ps h.1)

-- Pieces without the separator that were joined by it are what `splitString` returns.
pub split_string-intercalate :
    (c : ℕ) (p : Bytes) (ps : List Bytes)
    → All (Lacks c) (p ∷ ps)
    → split_string (intercalate c (p ∷ ps)) c ≡ some (p ∷ ps)
split_string-intercalate c p ps h =
    split_string-pieces (intercalate c (p ∷ ps)) c
    ∙ ap (λ (qs : List Bytes). some qs) (pieces-intercalate c p ps h)
