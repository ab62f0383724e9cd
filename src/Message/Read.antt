-- ===== src/Message/Read.antt =====
-- Reading a value from a message that holds its encoding.
use mathlib.Core.List.{map}
use nicenet.Common.{
  subst, append-nil, ℕ, ◌+◌, ◌%◌, ◌^◌, ◌≤◌, ◌<◌, ◌≡◌, refl, sym, ap, ◌∙◌, arith, List, [], ◌∷◌,
  ◌++◌, append_assoc, length, take, drop, length-append, take-append, drop-append, drop-drop,
  length-drop, All, Bytes, le_bytes, of_le, length-le_bytes, of_le-le_bytes, Result, ok, ◌>>=◌,
  le→leb, le→ltb, add-zero,
}
use nicenet.Message.{Message, heap, slice, get_size, read_data}
use nicenet.Message.Codec.{
  Ty, u16, u32, u64, oper, store, str, binary, vec, both, Val, get, get_word, get_bytes, get_each,
  get_binary,
}
use nicenet.Message.Layout.{enc, enc_each, Fits}

abbrev pub reader : ℕ → Bytes → ℕ → Message
reader wp block rp = record { buff = heap block; write_point = wp; read_point = rp }

-- The header counts the whole block, and `todo` is what stands behind the read offset.
pub record Holds (block : Bytes) (rp : ℕ) (todo : Bytes) : Type 0 where
  pub counted : of_le (take 4 block) ≡ length block
  pub small : length block < 2 ^ 32
  pub inside : rp ≤ length block
  pub behind : drop rp block ≡ todo

pub rest_length :
    {block : Bytes} {rp : ℕ} {todo : Bytes} → Holds block rp todo → length block ≡ rp + length todo
rest_length {block} {rp} h = omega (arith, ap length h.behind, length-drop rp block, h.inside)

pub Holds-skip :
    (block : Bytes) (rp : ℕ) (w rest : Bytes)
    → Holds block rp (w ++ rest)
    → Holds block (rp + length w) rest
Holds-skip block rp w rest h = record {
  counted = h.counted;
  small = h.small;
  inside = omega (arith, rest_length h, length-append w rest);
  behind = sym (drop-drop rp (length w) block) ∙ rw h.behind (drop-append (length w) w rest refl);
}

pub read_data-reader :
    (wp : ℕ) (block : Bytes) (rp : ℕ) (w rest : Bytes) (n : ℕ)
    → n ≡ length w
    → Holds block rp (w ++ rest)
    → read_data n (reader wp block rp) ≡ ok (w, reader wp block (rp + length w))
unfolding read_data get_size slice
read_data-reader wp block rp w rest n e h =
    let total = rest_length h in
    let sum = length-append w rest in
    let counted : of_le (take 4 block) ≡ length block = h.counted in
    let enough = le→ltb (of_le (take 4 block)) (rp + n) (omega arith) in
    let inside = le→leb (rp + n) (length block) (omega arith) in
    let moved : (rp + n) % 2 ^ 32 ≡ rp + length w = omega (arith, h.small) in
    rw enough (rw inside (rw (h.behind, moved) (rw (take-append n w rest e))))

-- A read `f` of the value `a` whose encoding is `w`, wherever it stands.
abbrev pub Reads {ℓ} : {A : Type ℓ} → (Message → Result (A × Message)) → A → Bytes → Type ℓ
Reads f a w =
    (wp : ℕ) (block : Bytes) (rp : ℕ) (rest : Bytes)
    → Holds block rp (w ++ rest)
    → f (reader wp block rp) ≡ ok (a, reader wp block (rp + length w))

Reads-nil {ℓ} : {A : Type ℓ} (a : A) → Reads (λ m. ok (a, m)) a []
Reads-nil a wp block rp rest h = rw add-zero

Reads-seq {ℓ κ} :
    {A : Type ℓ} {B : Type κ} (f : Message → Result (A × Message))
    (g : A → Message → Result (B × Message)) (a : A) (b : B) (v w : Bytes)
    → Reads f a v
    → Reads (g a) b w
    → Reads (λ m. f m >>= (λ p. g p.0 p.1)) b (v ++ w)
Reads-seq f g a b v w hf hg wp block rp rest h =
    let h' : Holds block rp (v ++ (w ++ rest)) = rw (← append_assoc v w rest) h in
    let sum : rp + length v + length w ≡ rp + length (v ++ w) = omega (arith, length-append v w) in
    rw (hf wp block rp (w ++ rest) h')
      (hg wp block (rp + length v) rest (Holds-skip block rp v (w ++ rest) h') ∙ rw sum)

Reads-map {ℓ κ} :
    {A : Type ℓ} {B : Type κ} (g : Message → Result (A × Message)) (k : A → B) (a : A) (w : Bytes)
    → Reads g a w
    → Reads (λ m. g m >>= (λ p. ok (k p.0, p.1))) (k a) w
Reads-map g k a w hg wp block rp rest h = rw (hg wp block rp rest h)

pub Reads-word : (k n : ℕ) → n < 256 ^ k → Reads (get_word k) n (le_bytes k n)
unfolding get_word
Reads-word k n lt wp block rp rest h =
    rw (read_data-reader wp block rp (le_bytes k n) rest k (sym (length-le_bytes k n)) h)
      (rw (of_le-le_bytes k n lt))

pub Reads-bytes : (v : Bytes) → Reads (read_data (length v)) v v
Reads-bytes v wp block rp rest h = read_data-reader wp block rp v rest (length v) refl h

get_bytes-Reads : (v : Bytes) → length v < 2 ^ 32 → Reads get_bytes v (le_bytes 4 (length v) ++ v)
unfolding get_bytes
get_bytes-Reads v h =
    Reads-seq (get_word 4) read_data (length v) v (le_bytes 4 (length v)) v
      (Reads-word 4 (length v) h) (Reads-bytes v)

get_binary-Reads : (v : Bytes) → Reads (get_binary (length v)) v v
unfolding get_binary
get_binary-Reads [] = Reads-nil []
get_binary-Reads (b ∷ v) = Reads-bytes (b ∷ v)

-- What a field that held `p` holds once `v` was read into it: the elements of a vector stand behind
-- the ones it had.
abbrev pub onto : ((t : Ty) → Val t) → (t : Ty) → Val t → Val t → Val t
onto fresh u16 p v = v
onto fresh u32 p v = v
onto fresh u64 p v = v
onto fresh oper p v = v
onto fresh store p v = v
onto fresh str p v = v
onto fresh binary p v = v
onto fresh (vec t) p vs = p ++ map (onto fresh t (fresh t)) vs
onto fresh (both t u) p v = (onto fresh t p.0 v.0, onto fresh u p.1 v.1)

-- A value without an element in any vector.
abbrev pub bare : (t : Ty) → Val t
bare u16 = 0
bare u32 = 0
bare u64 = 0
bare oper = 0
bare store = 0
bare str = []
bare binary = []
bare (vec t) = []
bare (both t u) = (bare t, bare u)

map-same {ℓ} : {A : Type ℓ} (k : A → A) (vs : List A) → ((v : A) → k v ≡ v) → map k vs ≡ vs
map-same k [] h = refl
map-same k (v ∷ vs) h = rw (h v) (ap (◌∷◌ v) (map-same k vs h))

pub onto-bare : (t : Ty) (v : Val t) → onto bare t (bare t) v ≡ v
onto-bare u16 v = refl
onto-bare u32 v = refl
onto-bare u64 v = refl
onto-bare oper v = refl
onto-bare store v = refl
onto-bare str v = refl
onto-bare binary v = refl
onto-bare (vec t) vs = map-same (onto bare t (bare t)) vs (onto-bare t)
onto-bare (both t u) v =
    ap (λ (x : Val t). (x, onto bare u (bare u) v.1)) (onto-bare t v.0)
    ∙ ap (λ (y : Val u). (v.0, y)) (onto-bare u v.1)

get_each-Reads {ℓ κ} :
    {A : Type ℓ} (P : A → Type κ) (f : Message → Result (A × Message)) (k : A → A) (e : A → Bytes)
    (vs p : List A)
    → ((v : A) → P v → Reads f (k v) (e v))
    → All P vs
    → Reads (get_each f (length vs) p) (p ++ map k vs) (enc_each e vs)
unfolding get_each
get_each-Reads {A = A} P f k e [] p h hs =
    subst (λ (r : List A). Reads (λ m. ok (p, m)) r []) (sym (append-nil p)) (Reads-nil p)
get_each-Reads {A = A} P f k e (v ∷ vs) p h hs =
    Reads-seq f (λ x m. get_each f (length vs) (p ++ x ∷ []) m) (k v) (p ++ map k (v ∷ vs)) (e v)
      (enc_each e vs) (h v hs.0)
      (subst (λ (r : List A). Reads (get_each f (length vs) (p ++ k v ∷ [])) r (enc_each e vs))
        (append_assoc p (k v ∷ []) (map k vs)) (get_each-Reads P f k e vs (p ++ k v ∷ []) h hs.1))

-- `operator >>` reads what stands for the value into the field, and moves the read offset behind
-- it.
pub get-Reads :
    (fresh : (t : Ty) → Val t) (t : Ty) (p v : Val t)
    → Fits t v
    → Reads (get fresh t p) (onto fresh t p v) (enc t v)
unfolding get enc
get-Reads fresh u16 p v h = Reads-word 2 v h
get-Reads fresh u32 p v h = Reads-word 4 v h
get-Reads fresh u64 p v h = Reads-word 8 v h
get-Reads fresh oper p v h = Reads-word 4 v h
get-Reads fresh store p v h = Reads-word 8 v h
get-Reads fresh str p v h = get_bytes-Reads v h
get-Reads fresh binary p v h =
    Reads-seq (get_word 4) get_binary (length v) v (le_bytes 4 (length v)) v
      (Reads-word 4 (length v) h) (get_binary-Reads v)
get-Reads fresh (vec t) p vs h =
    Reads-seq (get_word 4) (λ s. get_each (get fresh t (fresh t)) s p) (length vs)
      (p ++ map (onto fresh t (fresh t)) vs) (le_bytes 4 (length vs)) (enc_each (enc t) vs)
      (Reads-word 4 (length vs) h.0)
      (get_each-Reads (Fits t) (get fresh t (fresh t)) (onto fresh t (fresh t)) (enc t) vs p
        (get-Reads fresh t (fresh t)) h.1)
get-Reads fresh (both t u) p v h =
    let a = onto fresh t p.0 v.0 in
    let b = onto fresh u p.1 v.1 in
    Reads-seq (get fresh t p.0) (λ x m. get fresh u p.1 m >>= (λ q. ok ((x, q.0), q.1))) a (a, b)
      (enc t v.0) (enc u v.1) (get-Reads fresh t p.0 v.0 h.0)
      (Reads-map (get fresh u p.1) (λ y. (a, y)) b (enc u v.1) (get-Reads fresh u p.1 v.1 h.1))
