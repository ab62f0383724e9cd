-- ===== src/Message/Write.antt =====
-- Writing a value into a message that has room for it.
use nicenet.Common.{
  ℕ, ◌+◌, ◌-◌, ◌%◌, ◌^◌, ◌≤◌, ◌<◌, ◌≡◌, refl, sym, ap, ◌∙◌, arith, List, [], ◌∷◌, ◌++◌, append-nil,
  append_assoc, length, take, drop, length-append, take-append, drop-append_ge, take-append_le,
  drop-drop, length-drop, All, Bytes, le_bytes, of_le, Result, ok, ◌>>=◌, le→leb, le→ltb,
}
use nicenet.Message.{Message, heap, splice, get_size, write_data}
use nicenet.Message.Codec.{
  Ty, u16, u32, u64, oper, store, str, binary, vec, both, Val, put, put_each, put_bytes,
}
use nicenet.Message.Layout.{enc, enc_each, Fits}

-- A message that holds `front`, is written to next behind it, and has `room` left.
abbrev pub writer : ℕ → Bytes → Bytes → Message
writer rp front room = record {
  buff = heap (front ++ room);
  write_point = length front;
  read_point = rp;
}

-- `front` holds a header that is not 0, and the room takes `need` bytes.
pub record Room (front room : Bytes) (need : ℕ) : Type 0 where
  pub header : 4 ≤ length front
  pub nonzero : 0 < of_le (take 4 front)
  pub fits : need ≤ length room
  pub small : length front + length room < 2 ^ 32

-- Room for two writes is room for the first, and then for the second.
Room-first : {front room : Bytes} (m n : ℕ) → Room front room (m + n) → Room front room m
Room-first m n r = record {
  header = r.header;
  nonzero = r.nonzero;
  fits = omega (arith, r.fits);
  small = r.small;
}

Room-second :
    (front room w : Bytes) {n : ℕ}
    → Room front room (length w + n)
    → Room (front ++ w) (drop (length w) room) n
Room-second front room w r = record {
  header = omega (arith, r.header, length-append front w);
  nonzero = rw (take-append_le 4 front w r.header) r.nonzero;
  fits = omega (arith, r.fits, length-drop (length w) room);
  small = omega (arith, r.fits, r.small, length-append front w, length-drop (length w) room);
}

splice_end :
    (front room w : Bytes)
    → length w ≤ length room
    → splice (length front) w (front ++ room) ≡ ok ((front ++ w) ++ drop (length w) room)
unfolding splice
splice_end front room w h =
    let sum = length-append front room in
    let inside = le→leb (length front + length w) (length (front ++ room)) (omega arith) in
    let gap : length front + length w - length front ≡ length w = omega arith in
    rw inside (
      ap ok (
        rw (take-append (length front) front room refl) (
          rw (drop-append_ge (length front + length w) front room (omega arith))
            (rw gap (sym (append_assoc front w (drop (length w) room)))))))

pub write_data-writer :
    (rp : ℕ) (front room w : Bytes)
    → Room front room (length w)
    → write_data w (writer rp front room) ≡ ok (writer rp (front ++ w) (drop (length w) room))
unfolding write_data get_size
write_data-writer rp front room w r =
    let head = take-append_le 4 front room r.header in
    let some_size = le→ltb (of_le (take 4 (front ++ room))) 1 (rw head r.nonzero) in
    let sum : (length front + length w) % 2 ^ 32 ≡ length (front ++ w) =
      omega (arith, r.small, r.fits, length-append front w) in
    rw some_size (rw (splice_end front room w r.fits) (rw sum))

-- A write `f` of the bytes `w`, at every place that has room for them.
abbrev Writes : (Message → Result Message) → Bytes → Type 0
Writes f w =
    (rp : ℕ) (front room : Bytes)
    → Room front room (length w)
    → f (writer rp front room) ≡ ok (writer rp (front ++ w) (drop (length w) room))

Writes-seq :
    (f g : Message → Result Message) (v w : Bytes)
    → Writes f v
    → Writes g w
    → Writes (λ m. f m >>= g) (v ++ w)
Writes-seq f g v w hf hg rp front room r =
    let sum = length-append v w in
    let r' : Room front room (length v + length w) = rw (← sum) r in
    let second = hg rp (front ++ v) (drop (length v) room) (Room-second front room v r') in
    rw (hf rp front room (Room-first (length v) (length w) r'))
      (second ∙ rw (append_assoc front v w, drop-drop (length v) (length w) room, sum))

Writes-nil : Writes (λ m. ok m) []
Writes-nil rp front room r = rw (append-nil front)

Writes-word : (k n n' : ℕ) → n' ≡ n → Writes (write_data (le_bytes k n')) (le_bytes k n)
Writes-word k n n' e rp front room r = rw e (write_data-writer rp front room (le_bytes k n) r)

wrap32 : (n : ℕ) → n < 2 ^ 32 → n % 2 ^ 32 ≡ n
wrap32 n h = omega arith

put_bytes-Writes :
    (v : Bytes) → length v < 2 ^ 32 → Writes (put_bytes v) (le_bytes 4 (length v) ++ v)
unfolding put_bytes
put_bytes-Writes v h =
    Writes-seq (write_data (le_bytes 4 (length v % 2 ^ 32))) (write_data v) (le_bytes 4 (length v))
      v (Writes-word 4 (length v) _ (wrap32 (length v) h))
      (λ rp front room r. write_data-writer rp front room v r)

put_each-Writes {ℓ κ} :
    {A : Type ℓ} (P : A → Type κ) (f : A → Message → Result Message) (e : A → Bytes) (vs : List A)
    → ((v : A) → P v → Writes (f v) (e v))
    → All P vs
    → Writes (put_each f vs) (enc_each e vs)
unfolding put_each
put_each-Writes P f e [] h hs = Writes-nil
put_each-Writes P f e (v ∷ vs) h hs =
    Writes-seq (f v) (put_each f vs) (e v) (enc_each e vs) (h v hs.0)
      (put_each-Writes P f e vs h hs.1)

-- `operator <<` appends the encoding.
pub put-Writes : (t : Ty) (v : Val t) → Fits t v → Writes (put t v) (enc t v)
unfolding put enc
put-Writes u16 v h = Writes-word 2 v v refl
put-Writes u32 v h = Writes-word 4 v v refl
put-Writes u64 v h = Writes-word 8 v v refl
put-Writes oper v h = Writes-word 4 v v refl
put-Writes store v h = Writes-word 8 v v refl
put-Writes str v h = put_bytes-Writes v h
put-Writes binary v h = put_bytes-Writes v h
put-Writes (vec t) vs h =
    Writes-seq (write_data (le_bytes 4 (length vs % 2 ^ 32))) (put_each (put t) vs)
      (le_bytes 4 (length vs)) (enc_each (enc t) vs)
      (Writes-word 4 (length vs) _ (wrap32 (length vs) h.0))
      (put_each-Writes (Fits t) (put t) (enc t) vs (put-Writes t) h.1)
put-Writes (both t u) v h =
    Writes-seq (put t v.0) (put u v.1) (enc t v.0) (enc u v.1) (put-Writes t v.0 h.0)
      (put-Writes u v.1 h.1)
