-- ===== src/Message/Layout.antt =====
-- The bytes that a value stands for on the wire, as a plain recursion on its type, and the sizes
-- that `getSize` computes for them.
use nicenet.Common.{
  ℕ, ◌+◌, ◌%◌, ◌^◌, ◌≤◌, ◌<◌, ◌≡◌, arith, List, [], ◌∷◌, ◌++◌, length, length-append, Bytes,
  le_bytes, length-le_bytes, All,
}
use nicenet.Message.Codec.{
  Ty, u16, u32, u64, oper, store, str, binary, vec, both, Val, sum_sizes, get_size_of,
}

abbrev pub enc_each {ℓ} : {A : Type ℓ} → (A → Bytes) → List A → Bytes
enc_each f [] = []
enc_each f (v ∷ vs) = f v ++ enc_each f vs

unfoldable pub enc : (t : Ty) → Val t → Bytes
enc u16 v = le_bytes 2 v
enc u32 v = le_bytes 4 v
enc u64 v = le_bytes 8 v
enc oper v = le_bytes 4 v
enc store v = le_bytes 8 v
enc str v = le_bytes 4 (length v) ++ v
enc binary v = le_bytes 4 (length v) ++ v
enc (vec t) vs = le_bytes 4 (length vs) ++ enc_each (enc t) vs
enc (both t u) v = enc t v.0 ++ enc u v.1

-- The value is one of its C++ type: numbers in range, lengths that a ui32 counts.
abbrev pub Fits : (t : Ty) → Val t → Type 0
Fits u16 v = v < 2 ^ 16
Fits u32 v = v < 2 ^ 32
Fits u64 v = v < 2 ^ 64
Fits oper v = v < 2 ^ 32
Fits store v = v < 2 ^ 64
Fits str v = length v < 2 ^ 32
Fits binary v = length v < 2 ^ 32
Fits (vec t) vs = (length vs < 2 ^ 32) × All (Fits t) vs
Fits (both t u) v = Fits t v.0 × Fits u v.1

-- No ui16 and no ui32 in the type: the fields whose size `getSize` has an overload for.
abbrev pub HasOverloads : Ty → Type 0
HasOverloads u16 = ⊥
HasOverloads u32 = ⊥
HasOverloads u64 = Unit
HasOverloads oper = Unit
HasOverloads store = Unit
HasOverloads str = Unit
HasOverloads binary = Unit
HasOverloads (vec t) = HasOverloads t
HasOverloads (both t u) = HasOverloads t × HasOverloads u

-- `getSize` without its wrap-around.
abbrev sum_of {ℓ} : {A : Type ℓ} → (A → ℕ) → List A → ℕ
sum_of f [] = 0
sum_of f (v ∷ vs) = f v + sum_of f vs

unfoldable pub size : (t : Ty) → Val t → ℕ
size u16 v = 8
size u32 v = 8
size u64 v = 8
size oper v = 4
size store v = 8
size str v = length v + 4
size binary v = length v + 4
size (vec t) vs = 4 + sum_of (size t) vs
size (both t u) v = size t v.0 + size u v.1

sum_sizes-sum_of {ℓ} :
    {A : Type ℓ} (f g : A → ℕ) (vs : List A) (si : ℕ)
    → ((v : A) → g v < 2 ^ 32 → f v ≡ g v)
    → si + sum_of g vs < 2 ^ 32
    → sum_sizes f vs si ≡ si + sum_of g vs
unfolding sum_sizes
sum_sizes-sum_of f g [] si h lt = omega arith
sum_sizes-sum_of f g (v ∷ vs) si h lt =
    let e : f v ≡ g v = h v (omega arith) in
    let wrap : (si + f v) % 2 ^ 32 ≡ si + g v = omega arith in
    rw wrap (omega (arith, sum_sizes-sum_of f g vs (si + g v) h (omega arith)))

-- Below 4 GiB the ui32 arithmetic of `getSize` does not wrap.
pub get_size_of-size : (t : Ty) (v : Val t) → size t v < 2 ^ 32 → get_size_of t v ≡ size t v
unfolding get_size_of size
get_size_of-size u16 v h = omega arith
get_size_of-size u32 v h = omega arith
get_size_of-size u64 v h = omega arith
get_size_of-size oper v h = omega arith
get_size_of-size store v h = omega arith
get_size_of-size str v h = omega arith
get_size_of-size binary v h = omega arith
get_size_of-size (vec t) vs h =
    sum_sizes-sum_of (get_size_of t) (size t) vs 4 (get_size_of-size t) h
get_size_of-size (both t u) v h =
    omega (arith, get_size_of-size t v.0 (omega arith), get_size_of-size u v.1 (omega arith))

length-enc_each-le {ℓ} :
    {A : Type ℓ} (f : A → Bytes) (g : A → ℕ) (vs : List A)
    → ((v : A) → length (f v) ≤ g v)
    → length (enc_each f vs) ≤ sum_of g vs
length-enc_each-le f g [] h = omega arith
length-enc_each-le f g (v ∷ vs) h =
    omega (arith, h v, length-append (f v) (enc_each f vs), length-enc_each-le f g vs h)

-- What is written never takes more than `getSize` counts.
pub length-enc-le : (t : Ty) (v : Val t) → length (enc t v) ≤ size t v
unfolding enc size
length-enc-le u16 v = omega (arith, length-le_bytes 2 v)
length-enc-le u32 v = omega (arith, length-le_bytes 4 v)
length-enc-le u64 v = omega (arith, length-le_bytes 8 v)
length-enc-le oper v = omega (arith, length-le_bytes 4 v)
length-enc-le store v = omega (arith, length-le_bytes 8 v)
length-enc-le str v = omega (arith, length-append (le_bytes 4 (length v)) v)
length-enc-le binary v = omega (arith, length-append (le_bytes 4 (length v)) v)
length-enc-le (vec t) vs = omega (
  arith,
  length-append (le_bytes 4 (length vs)) (enc_each (enc t) vs),
  length-enc_each-le (enc t) (size t) vs (length-enc-le t),
)
length-enc-le (both t u) v =
    omega (arith, length-append (enc t v.0) (enc u v.1), length-enc-le t v.0, length-enc-le u v.1)

length-enc_each-eq {ℓ} :
    {A : Type ℓ} (f : A → Bytes) (g : A → ℕ) (vs : List A)
    → ((v : A) → length (f v) ≡ g v)
    → length (enc_each f vs) ≡ sum_of g vs
length-enc_each-eq f g [] h = omega arith
length-enc_each-eq f g (v ∷ vs) h =
    omega (arith, h v, length-append (f v) (enc_each f vs), length-enc_each-eq f g vs h)

pub length-enc-eq : (t : Ty) (v : Val t) → HasOverloads t → length (enc t v) ≡ size t v
unfolding enc size
length-enc-eq u16 v h = absurd h
length-enc-eq u32 v h = absurd h
length-enc-eq u64 v h = omega (arith, length-le_bytes 8 v)
length-enc-eq oper v h = omega (arith, length-le_bytes 4 v)
length-enc-eq store v h = omega (arith, length-le_bytes 8 v)
length-enc-eq str v h = omega (arith, length-append (le_bytes 4 (length v)) v)
length-enc-eq binary v h = omega (arith, length-append (le_bytes 4 (length v)) v)
length-enc-eq (vec t) vs h = omega (
  arith,
  length-append (le_bytes 4 (length vs)) (enc_each (enc t) vs),
  length-enc_each-eq (enc t) (size t) vs (λ v. length-enc-eq t v h),
)
length-enc-eq (both t u) v h =
    omega (
      arith,
      length-append (enc t v.0) (enc u v.1),
      length-enc-eq t v.0 h.0,
      length-enc-eq u v.1 h.1,
    )
