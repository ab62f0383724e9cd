-- ===== src/Http/Connection/Query.antt =====
-- A target that was put together from a path and pairs.
use mathlib.Core.Option.{bind}
use nicenet.Common.{
  ℕ, ◌≡◌, ◌≢◌, refl, ap, ◌∙◌, arith, Option, some, List, [], ◌∷◌, ◌++◌, All, Bytes,
}
use nicenet.Common.Table.{Table, insert}
use nicenet.Text.Split.{intercalate, Lacks}
use nicenet.Text.Join.{split_string-intercalate}
use nicenet.Http.Connection.{add_pair, add_params, last_of, target_of, read_target}

-- a name and a value, as `name=value`
abbrev pub pair_text : Bytes × Bytes → Bytes
pair_text (k, v) = intercalate b'=' (k ∷ v ∷ [])

abbrev pub pair_texts : List (Bytes × Bytes) → List Bytes
pair_texts [] = []
pair_texts (f ∷ fs) = pair_text f ∷ pair_texts fs

-- The pairs in a table, where a later pair of a name takes the place of an earlier one.
abbrev pub table_of : List (Bytes × Bytes) → Table Bytes → Table Bytes
table_of [] t = t
table_of ((k, v) ∷ fs) t = table_of fs (insert k v t)

-- None of the characters at which a target is split.
abbrev pub IsPlain : ℕ → Type 0
IsPlain x = (x ≢ b'?') × (x ≢ b'&') × (x ≢ b'=')

abbrev pub IsPair : Bytes × Bytes → Type 0
IsPair (k, v) = All IsPlain k × All IsPlain v

Lacks-mark : (s : Bytes) → All IsPlain s → Lacks b'?' s
Lacks-mark [] h = tt
Lacks-mark (x ∷ s) h = (h.0.0, Lacks-mark s h.1)

Lacks-and : (s : Bytes) → All IsPlain s → Lacks b'&' s
Lacks-and [] h = tt
Lacks-and (x ∷ s) h = (h.0.1, Lacks-and s h.1)

Lacks-equals : (s : Bytes) → All IsPlain s → Lacks b'=' s
Lacks-equals [] h = tt
Lacks-equals (x ∷ s) h = (h.0.2, Lacks-equals s h.1)

Lacks-append : (c : ℕ) (s t : Bytes) → Lacks c s → Lacks c t → Lacks c (s ++ t)
Lacks-append c [] t h k = k
Lacks-append c (x ∷ s) t h k = (h.0, Lacks-append c s t h.1 k)

Lacks-intercalate :
    (c d : ℕ) (ps : List Bytes) → d ≢ c → All (Lacks c) ps → Lacks c (intercalate d ps)
Lacks-intercalate c d [] ne h = tt
Lacks-intercalate c d (p ∷ []) ne h = h.0
Lacks-intercalate c d (p ∷ q ∷ ps) ne h =
    Lacks-append c p (d ∷ intercalate d (q ∷ ps)) h.0 (ne, Lacks-intercalate c d (q ∷ ps) ne h.1)

pairs_lack_and : (fs : List (Bytes × Bytes)) → All IsPair fs → All (Lacks b'&') (pair_texts fs)
pairs_lack_and [] h = tt
pairs_lack_and ((k, v) ∷ fs) h = (
  Lacks-intercalate b'&' b'=' (k ∷ v ∷ []) (λ e. omega arith)
      (Lacks-and k h.0.0, (Lacks-and v h.0.1, tt)),
  pairs_lack_and fs h.1,
)

pairs_lack_mark : (fs : List (Bytes × Bytes)) → All IsPair fs → All (Lacks b'?') (pair_texts fs)
pairs_lack_mark [] h = tt
pairs_lack_mark ((k, v) ∷ fs) h = (
  Lacks-intercalate b'?' b'=' (k ∷ v ∷ []) (λ e. omega arith)
      (Lacks-mark k h.0.0, (Lacks-mark v h.0.1, tt)),
  pairs_lack_mark fs h.1,
)

add_params-pairs :
    (fs : List (Bytes × Bytes)) (t : Table Bytes)
    → All IsPair fs
    → add_params (pair_texts fs) t ≡ some (table_of fs t)
unfolding add_params add_pair bind
add_params-pairs [] t h = refl
add_params-pairs ((k, v) ∷ fs) t h =
    ap (λ (o : Option (List Bytes)). bind o (λ ss3. add_params (pair_texts fs) (add_pair ss3 t)))
      (split_string-intercalate b'=' k (v ∷ []) (Lacks-equals k h.0.0, (Lacks-equals v h.0.1, tt)))
    ∙ add_params-pairs fs (insert k v t) h.1

abbrev pub query_text : Bytes × Bytes → List (Bytes × Bytes) → Bytes
query_text f fs = intercalate b'&' (pair_text f ∷ pair_texts fs)

-- A path, a question mark and pairs, all of other characters than those three: the handler gets
-- the path, the text of the pairs, and a table of the pairs.
pub read_target-pairs :
    (path : Bytes) (f : Bytes × Bytes) (fs : List (Bytes × Bytes))
    → All IsPlain path
    → All IsPair (f ∷ fs)
    → read_target (intercalate b'?' (path ∷ query_text f fs ∷ []))
      ≡ some
          (record { path = path; params_string = query_text f fs; params = table_of (f ∷ fs) [] })
unfolding read_target target_of last_of bind
read_target-pairs path f fs h hs =
    let whole =
      Lacks-intercalate b'?' b'&' (pair_texts (f ∷ fs)) (λ e. omega arith)
        (pairs_lack_mark (f ∷ fs) hs) in
    let made = λ (o : Option (Table Bytes)).
      bind o (λ params.
        some (record { path = path; params_string = query_text f fs; params = params })) in
    ap (λ (o : Option (List Bytes)). bind o target_of)
      (split_string-intercalate b'?' path (query_text f fs ∷ []) (Lacks-mark path h, (whole, tt)))
    ∙ ap (λ (o : Option (List Bytes)). bind o (λ ss2. made (add_params ss2 [])))
        (split_string-intercalate b'&' (pair_text f) (pair_texts fs) (pairs_lack_and (f ∷ fs) hs))
    ∙ ap made (add_params-pairs (f ∷ fs) [] hs)
