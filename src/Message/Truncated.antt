-- ===== src/Message/Truncated.antt =====
-- `>>` on a message that ends inside the encoding of the value: no operator looks at the null
-- pointer that `read_data` then returns.
use nicenet.Common.{
  ℕ, ◌+◌, ◌-◌, ◌^◌, ◌<◌, ◌≡◌, refl, sym, arith, List, [], ◌∷◌, ◌++◌, length, take, length-append,
  take-append_le, take-append_ge, length-take, length-le_bytes, All, Bytes, le_bytes, of_le, Result,
  ok, fault, null_dereference, ◌>>=◌, lt→ltb, ltb, ltb→lt, ltb→le, drop-append, ◌∙◌, Bool-cases,
  inl, inr,
}
use nicenet.Message.{Message, get_size, read_data}
use nicenet.Message.Codec.{
  Ty, u16, u32, u64, oper, store, str, binary, vec, both, Val, get, get_word, get_bytes, get_each,
  get_binary,
}
use nicenet.Message.Layout.{enc, enc_each, Fits}
use nicenet.Message.Read.{
  reader, Holds, Holds-skip, rest_length, Reads, Reads-word, onto, get-Reads,
}

-- `f` faults wherever the message ends before the last byte of `w`.
abbrev Short {ℓ} : {A : Type ℓ} → (Message → Result (A × Message)) → Bytes → Type ℓ
Short f w =
    (wp : ℕ) (block : Bytes) (rp k : ℕ)
    → k < length w
    → Holds block rp (take k w)
    → f (reader wp block rp) ≡ fault null_dereference

read_data-Short : (n : ℕ) (w : Bytes) → n ≡ length w → Short (read_data n) w
unfolding read_data get_size
read_data-Short n w e wp block rp k lt h =
    let total = rest_length h in
    let counted : of_le (take 4 block) ≡ length block = h.counted in
    rw (lt→ltb (of_le (take 4 block)) (rp + n) (omega (arith, length-take k w)))

Short-seq {ℓ κ} :
    {A : Type ℓ} {B : Type κ} (f : Message → Result (A × Message))
    (g : A → Message → Result (B × Message)) (a : A) (v w : Bytes)
    → Short f v
    → Reads f a v
    → Short (g a) w
    → Short (λ m. f m >>= (λ p. g p.0 p.1)) (v ++ w)
Short-seq f g a v w hf rf hg wp block rp k lt h = elim (Bool-cases (ltb k (length v))) [
  | inl inside ↦
      let cut = take-append_le k v w (omega (arith, ltb→lt k (length v) inside)) in
      rw (hf wp block rp k (ltb→lt k (length v) inside) (rw cut at h))
  | inr beyond ↦
      let past = ltb→le k (length v) beyond in
      let h' : Holds block rp (v ++ take (k - length v) w) = rw (take-append_ge k v w past) at h in
      rw (rf wp block rp (take (k - length v) w) h') (
        hg wp block (rp + length v) (k - length v) (omega (arith, length-append v w))
          (Holds-skip block rp v (take (k - length v) w) h'))
]

Short-map {ℓ κ} :
    {A : Type ℓ} {B : Type κ} (g : Message → Result (A × Message)) (k : A → B) (w : Bytes)
    → Short g w
    → Short (λ m. g m >>= (λ p. ok (k p.0, p.1))) w
Short-map g k w hg wp block rp n lt h = rw (hg wp block rp n lt h)

get_word-Short : (k n : ℕ) → Short (get_word k) (le_bytes k n)
unfolding get_word
get_word-Short k n wp block rp i lt h =
    rw (read_data-Short k (le_bytes k n) (sym (length-le_bytes k n)) wp block rp i lt h)

get_bytes-Short : (v : Bytes) → length v < 2 ^ 32 → Short get_bytes (le_bytes 4 (length v) ++ v)
unfolding get_bytes
get_bytes-Short v h =
    Short-seq (get_word 4) read_data (length v) (le_bytes 4 (length v)) v
      (get_word-Short 4 (length v)) (Reads-word 4 (length v) h) (read_data-Short (length v) v refl)

get_binary-Short : (v : Bytes) → Short (get_binary (length v)) v
unfolding get_binary
get_binary-Short [] wp block rp k lt h = absurd (omega arith)
get_binary-Short (b ∷ v) wp block rp k lt h =
    read_data-Short (length (b ∷ v)) (b ∷ v) refl wp block rp k lt h

get_each-Short {ℓ κ} :
    {A : Type ℓ} (P : A → Type κ) (f : Message → Result (A × Message)) (k : A → A) (e : A → Bytes)
    (vs p : List A)
    → ((v : A) → P v → Short f (e v))
    → ((v : A) → P v → Reads f (k v) (e v))
    → All P vs
    → Short (get_each f (length vs) p) (enc_each e vs)
unfolding get_each
get_each-Short P f k e [] p h r hs wp block rp i lt h' = absurd (omega arith)
get_each-Short P f k e (v ∷ vs) p h r hs wp block rp i lt h' =
    Short-seq f (λ x m. get_each f (length vs) (p ++ x ∷ []) m) (k v) (e v) (enc_each e vs)
      (h v hs.0) (r v hs.0) (get_each-Short P f k e vs (p ++ k v ∷ []) h r hs.1) wp block rp i lt h'

get-Short :
    (fresh : (t : Ty) → Val t) (t : Ty) (p v : Val t) → Fits t v → Short (get fresh t p) (enc t v)
unfolding get enc
get-Short fresh u16 p v h = get_word-Short 2 v
get-Short fresh u32 p v h = get_word-Short 4 v
get-Short fresh u64 p v h = get_word-Short 8 v
get-Short fresh oper p v h = get_word-Short 4 v
get-Short fresh store p v h = get_word-Short 8 v
get-Short fresh str p v h = get_bytes-Short v h
get-Short fresh binary p v h =
    Short-seq (get_word 4) get_binary (length v) (le_bytes 4 (length v)) v
      (get_word-Short 4 (length v)) (Reads-word 4 (length v) h) (get_binary-Short v)
get-Short fresh (vec t) p vs h =
    Short-seq (get_word 4) (λ s. get_each (get fresh t (fresh t)) s p) (length vs)
      (le_bytes 4 (length vs)) (enc_each (enc t) vs) (get_word-Short 4 (length vs))
      (Reads-word 4 (length vs) h.0)
      (get_each-Short (Fits t) (get fresh t (fresh t)) (onto fresh t (fresh t)) (enc t) vs p
        (get-Short fresh t (fresh t)) (get-Reads fresh t (fresh t)) h.1)
get-Short fresh (both t u) p v h =
    let a = onto fresh t p.0 v.0 in
    Short-seq (get fresh t p.0) (λ x m. get fresh u p.1 m >>= (λ q. ok ((x, q.0), q.1))) a
      (enc t v.0) (enc u v.1) (get-Short fresh t p.0 v.0 h.0) (get-Reads fresh t p.0 v.0 h.0)
      (Short-map (get fresh u p.1) (λ y. (a, y)) (enc u v.1) (get-Short fresh u p.1 v.1 h.1))

-- A message whose header counts it right, but whose fields stop before the last byte of the
-- encoding of a value, makes `>>` of that value's type read through a null pointer, whatever it
-- reads into.
pub get_truncated :
    (fresh : (t : Ty) → Val t) (t : Ty) (p v : Val t) (wp : ℕ) (head : Bytes) (k : ℕ)
    → Fits t v
    → length head ≡ 6
    → k < length (enc t v)
    → of_le (take 4 head) ≡ 6 + k
    → 6 + k < 2 ^ 32
    → get fresh t p (reader wp (head ++ take k (enc t v)) 6) ≡ fault null_dereference
get_truncated fresh t p v wp head k fits six lt counted small =
    let body = take k (enc t v) in
    let len : length (head ++ body) ≡ 6 + k =
      omega (arith, length-append head body, length-take k (enc t v)) in
    get-Short fresh t p v fits wp (head ++ body) 6 k lt (record {
      counted = rw (take-append_le 4 head body (omega arith)) (counted ∙ sym len);
      small = omega arith;
      inside = omega arith;
      behind = drop-append 6 head body (sym six);
    })
