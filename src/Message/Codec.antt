-- ===== src/Message/Codec.antt =====
-- Message.h: `Serializable::getSize`, `toMsg` and the operators `<<` and `>>`. `Ty` lists the
-- field types that have the operators; `both` stands for consecutive fields, so a generated
-- struct is a nest of them.
use nicenet.Common.{
  ℕ, zero, suc, ◌+◌, ◌%◌, ◌^◌, List, [], ◌∷◌, ◌++◌, length, Bytes, le_bytes, of_le, Result, ok,
  ◌>>=◌,
}
use nicenet.Message.{Message, build_buff, set_id, write_data, read_data}

pub data Ty : Type 0 where
  u16 u32 u64 oper store str binary : Ty
  vec : Ty → Ty
  both : Ty → Ty → Ty

abbrev pub Val : Ty → Type 0
Val u16 = ℕ
Val u32 = ℕ
Val u64 = ℕ
Val oper = ℕ
Val store = ℕ
Val str = Bytes
Val binary = Bytes
Val (vec t) = List (Val t)
Val (both t u) = Val t × Val u

unfoldable pub sum_sizes {ℓ} : {A : Type ℓ} → (A → ℕ) → List A → ℕ → ℕ
sum_sizes f [] si = si
sum_sizes f (v ∷ vs) si = sum_sizes f vs ((si + f v) % 2 ^ 32)

-- `getSize` has no overload for ui16 and ui32: they convert to `const ui64&`.
unfoldable pub get_size_of : (t : Ty) → Val t → ℕ
unfolding sum_sizes
get_size_of u16 v = 8
get_size_of u32 v = 8
get_size_of u64 v = 8
get_size_of oper v = 4
get_size_of store v = 8
get_size_of str v = (length v % 2 ^ 32 + 4) % 2 ^ 32
get_size_of binary v = (length v + 4) % 2 ^ 32
get_size_of (vec t) vs = sum_sizes (get_size_of t) vs 4
get_size_of (both t u) v = (get_size_of t v.0 + get_size_of u v.1) % 2 ^ 32

unfoldable pub put_bytes : Bytes → Message → Result Message
put_bytes v m = do m' ← write_data (le_bytes 4 (length v % 2 ^ 32)) m; write_data v m'

unfoldable pub put_each {ℓ} :
    {A : Type ℓ} → (A → Message → Result Message) → List A → Message → Result Message
put_each f [] m = ok m
put_each f (v ∷ vs) m = do m' ← f v m; put_each f vs m'

-- `operator <<`
unfoldable pub put : (t : Ty) → Val t → Message → Result Message
unfolding put_bytes put_each
put u16 v m = write_data (le_bytes 2 v) m
put u32 v m = write_data (le_bytes 4 v) m
put u64 v m = write_data (le_bytes 8 v) m
put oper v m = write_data (le_bytes 4 v) m
put store v m = write_data (le_bytes 8 v) m
put str v m = put_bytes v m
put binary v m = put_bytes v m
put (vec t) vs m = do m' ← write_data (le_bytes 4 (length vs % 2 ^ 32)) m; put_each (put t) vs m'
put (both t u) v m = do m' ← put t v.0 m; put u v.1 m'

unfoldable pub get_word : ℕ → Message → Result (ℕ × Message)
get_word size m = do (bytes, m') ← read_data size m; ok (of_le bytes, m')

unfoldable pub get_bytes : Message → Result (Bytes × Message)
unfolding get_word
get_bytes m = do (s, m') ← get_word 4 m; read_data s m'

-- `f` reads a new element, which is put behind what the vector holds.
unfoldable pub get_each {ℓ} :
    {A : Type ℓ}
    → (Message → Result (A × Message))
    → ℕ
    → List A
    → Message
    → Result (List A × Message)
get_each f zero p m = ok (p, m)
get_each f (suc n) p m = do (v, m') ← f m; get_each f n (p ++ v ∷ []) m'

-- `Binary` reads its bytes only if there are any.
unfoldable pub get_binary : ℕ → Message → Result (Bytes × Message)
get_binary zero m = ok ([], m)
get_binary (suc n) m = read_data (suc n) m

-- `operator >>` into a field that holds `p`. `fresh` is what a new object of a type holds, such as
-- the default of a field in a generated struct.
unfoldable pub get : ((t : Ty) → Val t) → (t : Ty) → Val t → Message → Result (Val t × Message)
unfolding get_word get_bytes get_each get_binary
get fresh u16 p m = get_word 2 m
get fresh u32 p m = get_word 4 m
get fresh u64 p m = get_word 8 m
get fresh oper p m = get_word 4 m
get fresh store p m = get_word 8 m
get fresh str p m = get_bytes m
get fresh binary p m = do (s, m') ← get_word 4 m; get_binary s m'
get fresh (vec t) p m = do (s, m') ← get_word 4 m; get_each (get fresh t (fresh t)) s p m'
get fresh (both t u) p m = do
  (v, m') ← get fresh t p.0 m
  (w, m'') ← get fresh u p.1 m'
  ok ((v, w), m'')

-- `toMsg` of a `Serializable` with the fields `t` and the message number `id`.
unfoldable pub to_msg : (ℕ → ℕ) → (t : Ty) → ℕ → Val t → Message → Result Message
to_msg garbage t id v m = do
  m₁ ← build_buff garbage ((6 + get_size_of t v) % 2 ^ 32) m
  m₂ ← set_id garbage id m₁
  put t v m₂
