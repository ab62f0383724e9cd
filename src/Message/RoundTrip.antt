-- ===== src/Message/RoundTrip.antt =====
-- `toMsg`, and `>>` on what it builds.
use nicenet.Common.{
  ℕ, zero, suc, ◌+◌, ◌%◌, ◌^◌, ◌≤◌, ◌<◌, ◌≡◌, refl, sym, ap, ◌∙◌, arith, [], ◌∷◌, ◌++◌, append-nil,
  length, take, drop, length-append, take-append, drop-drop, length-drop, drop_all, Bytes, le_bytes,
  of_le, of_le-le_bytes, ok, le→leb, le→ltb, some, to_option,
}
use mathlib.Core.Option
use nicenet.Message.{
  block_of, Message, heap, from_buffer, slice, alloc, splice, build_buff, set_id, get_size,
  get_msg_id,
}
use nicenet.Message.Codec.{Ty, u32, Val, get_size_of, get, to_msg}
use nicenet.Message.Layout.{
  enc, Fits, HasOverloads, size, get_size_of-size, length-enc-le, length-enc-eq,
}
use nicenet.Message.Write.{writer, Room, put-Writes}
use nicenet.Message.Read.{reader, Holds, onto, bare, onto-bare, get-Reads}

pub length-alloc : (garbage : ℕ → ℕ) (n : ℕ) → length (alloc garbage n) ≡ n
length-alloc garbage zero = refl
length-alloc garbage (suc n) = ap suc (length-alloc (λ i. garbage (suc i)) n)

-- The six bytes in front of the fields.
abbrev pub frame_head : ℕ → ℕ → Bytes
frame_head n id = le_bytes 4 n ++ le_bytes 2 id

-- What `getSize` counts beyond the fields, as the allocator left it.
abbrev pub slack : (ℕ → ℕ) → ℕ → ℕ → Bytes
slack garbage n used = drop (6 + used) (alloc garbage n)

build_buff_lem :
    (garbage : ℕ → ℕ) (n : ℕ) (m : Message)
    → 4 ≤ n
    → n < 2 ^ 32
    → build_buff garbage n m
      ≡ ok (record {
        buff = heap (le_bytes 4 n ++ drop 4 (alloc garbage n));
        write_point = 6;
        read_point = 6;
      })
unfolding build_buff splice
build_buff_lem garbage n m h lt =
    let wrap : n % 2 ^ 32 ≡ n = omega arith in
    let inside = le→leb 4 (length (alloc garbage n)) (omega (arith, length-alloc garbage n)) in
    rw wrap (rw inside)

set_id_lem :
    (garbage : ℕ → ℕ) (n id : ℕ)
    → 6 ≤ n
    → id < 2 ^ 16
    → set_id garbage id (record {
      buff = heap (le_bytes 4 n ++ drop 4 (alloc garbage n));
      write_point = 6;
      read_point = 6;
    })
      ≡ ok (writer 6 (frame_head n id) (drop 6 (alloc garbage n)))
unfolding set_id splice
set_id_lem garbage n id h lt =
    let block = le_bytes 4 n ++ drop 4 (alloc garbage n) in
    let len = length-alloc garbage n in
    let inside = le→leb 6 (length block) (omega (arith, length-drop 4 (alloc garbage n))) in
    let wrap : id % 2 ^ 16 ≡ id = omega arith in
    rw wrap (rw inside (rw (drop-drop 4 2 (alloc garbage n))))

-- The bytes of the message that `toMsg` builds: the head, the encoding of the fields, and the
-- allocator's bytes up to the size that `getSize` counted.
pub to_msg-frame :
    (garbage : ℕ → ℕ) (t : Ty) (id : ℕ) (v : Val t) (m : Message)
    → Fits t v
    → id < 2 ^ 16
    → 6 + size t v < 2 ^ 32
    → to_msg garbage t id v m
      ≡ ok (
          writer 6
            (frame_head (6 + size t v) id ++ enc t v)
            (slack garbage (6 + size t v) (length (enc t v))))
unfolding to_msg
to_msg-frame garbage t id v m fits small lt =
    let n = 6 + size t v in
    let used = length-enc-le t v in
    let wrap : (6 + get_size_of t v) % 2 ^ 32 ≡ n =
      omega (arith, get_size_of-size t v (omega arith)) in
    let head : of_le (le_bytes 4 n) ≡ n = of_le-le_bytes 4 n (omega arith) in
    let len = length-alloc garbage n in
    let room : Room (frame_head n id) (drop 6 (alloc garbage n)) (length (enc t v)) = record {
      header = omega arith;
      nonzero = omega arith;
      fits = omega (arith, length-drop 6 (alloc garbage n));
      small = omega (arith, length-drop 6 (alloc garbage n));
    } in
    rw wrap (
      rw (build_buff_lem garbage n m (omega arith) lt) (
        rw (set_id_lem garbage n id (omega arith) small) (
          put-Writes t v fits 6 (frame_head n id) (drop 6 (alloc garbage n)) room
          ∙ rw (drop-drop 6 (length (enc t v)) (alloc garbage n)))))

slice_front : (src : Bytes) (n : ℕ) → n ≤ length src → slice 0 n src ≡ ok (take n src)
unfolding slice
slice_front src n h = rw (le→leb (0 + n) (length src) (omega arith))

splice_all : (src block : Bytes) → length src ≡ length block → splice 0 src block ≡ ok src
unfolding splice
splice_all src block h =
    rw (le→leb (0 + length src) (length block) (omega arith))
      (rw (drop_all (0 + length src) block (omega arith)) (rw append-nil))

-- `Message(buff, size)` on a frame copies it, whatever follows in memory.
pub from_buffer_lem :
    (garbage : ℕ → ℕ) (frame more : Bytes)
    → 6 ≤ length frame
    → length frame < 2 ^ 32
    → from_buffer garbage (frame ++ more) (length frame) ≡ ok (reader 6 frame 6)
unfolding from_buffer build_buff splice slice
from_buffer_lem garbage frame more h lt =
    let n = length frame in
    let len = length-alloc garbage n in
    let big = le→ltb n 6 h in
    let inside = le→leb 4 (length (alloc garbage n)) (omega arith) in
    let block = le_bytes 4 (n % 2 ^ 32) ++ drop 4 (alloc garbage n) in
    let whole : length block ≡ n = omega (arith, length-drop 4 (alloc garbage n)) in
    rw big (
      rw (inside, splice)
        (rw (slice_front (frame ++ more) n (omega (arith, length-append frame more)))
          (rw (take-append n frame more refl) (rw (splice_all frame block (sym whole))))))

module _ (garbage : ℕ → ℕ) (t : Ty) (id : ℕ) (v : Val t) (fits : Fits t v) (small : id < 2 ^ 16)
    (lt : 6 + size t v < 2 ^ 32) where
  frame_of : Bytes
  frame_of =
      (frame_head (6 + size t v) id ++ enc t v) ++ slack garbage (6 + size t v) (length (enc t v))

  length-frame_of : length frame_of ≡ 6 + size t v
  unfolding frame_of
  length-frame_of =
      let n = 6 + size t v in
      let used = length (enc t v) in
      omega (
        arith,
        length-append (frame_head n id ++ enc t v) (slack garbage n used),
        length-append (frame_head n id) (enc t v),
        length-drop (6 + used) (alloc garbage n),
        length-alloc garbage n,
        length-enc-le t v,
      )

  frame_of-Holds : Holds frame_of 6 (enc t v ++ slack garbage (6 + size t v) (length (enc t v)))
  unfolding frame_of
  frame_of-Holds = record {
    counted = rw (of_le-le_bytes 4 (6 + size t v) (omega arith)) (sym length-frame_of);
    small = omega (arith, length-frame_of);
    inside = omega (arith, length-frame_of);
    behind = refl;
  }

  -- What `toMsg` sends of a value that fits its type, in a message below 4 GiB, a receiver's
  -- `Message(data, size)` takes over from the start of any read, under the same message number. `>>`
  -- gives back the value, if all vectors of the object that it reads into are empty, and those of
  -- each new element too. Into any object it reads the value with the elements of each vector
  -- behind those that the object, or the new element, had.
  pub get-to_msg :
      (garbage' : ℕ → ℕ) (m : Message) (more : Bytes) (fresh : (t : Ty) → Val t) (p : Val t)
      → (sent : Message) × (received : Message) × (after : Message) × (to_msg garbage t id v m
          ≡ ok sent)
        × (get_size sent ≡ 6 + size t v)
        × (from_buffer garbage' (block_of sent ++ more) (get_size sent) ≡ ok received)
        × (get_msg_id received ≡ id)
        × (get bare t (bare t) received ≡ ok (v, after))
        × (get fresh t p received ≡ ok (onto fresh t p v, after))
  unfolding get_size get_msg_id frame_of
  get-to_msg garbage' m more fresh p =
      let counted = of_le-le_bytes 4 (6 + size t v) (omega arith) in
      let rest = slack garbage (6 + size t v) (length (enc t v)) in
      let after = reader 6 frame_of (6 + length (enc t v)) in
      (
        writer 6 (frame_head (6 + size t v) id ++ enc t v)
            (slack garbage (6 + size t v) (length (enc t v))),
        reader 6 frame_of 6,
        reader 6 frame_of (6 + length (enc t v)),
        to_msg-frame garbage t id v m fits small lt,
        counted,
        rw (counted ∙ sym length-frame_of) (
            from_buffer_lem garbage' frame_of more (omega (arith, length-frame_of))
              (omega (arith, length-frame_of))),
        of_le-le_bytes 2 id (omega arith),
        get-Reads bare t (bare t) v fits 6 frame_of 6 rest frame_of-Holds
            ∙ ap (λ (w : Val t). ok (w, after)) (onto-bare t v),
        get-Reads fresh t p v fits 6 frame_of 6 rest frame_of-Holds,
      )

-- Where `getSize` has an overload for every field, `toMsg` fills the block exactly: the message
-- is its size, its number and the fields, with no byte of the allocator.
pub to_msg_exact :
    (garbage : ℕ → ℕ) (t : Ty) (id : ℕ) (v : Val t) (m : Message)
    → HasOverloads t
    → Fits t v
    → id < 2 ^ 16
    → 6 + size t v < 2 ^ 32
    → Option.map block_of (to_option (to_msg garbage t id v m))
      ≡ some (le_bytes 4 (6 + length (enc t v)) ++ (le_bytes 2 id ++ enc t v))
to_msg_exact garbage t id v m over fits small lt =
    let exact = length-enc-eq t v over in
    let n = 6 + size t v in
    rw (to_msg-frame garbage t id v m fits small lt) (
      rw (drop_all (6 + length (enc t v)) (alloc garbage n) (omega (arith, length-alloc garbage n)))
        (rw (append-nil, exact) refl))

-- A ui32 field is counted by `getSize(const ui64&)`: the message of one such field carries four
-- bytes of the new block that nobody wrote.
pub to_msg_leak :
    (garbage : ℕ → ℕ) (id v : ℕ) (m : Message)
    → id < 2 ^ 16
    → v < 2 ^ 32
    → Option.map block_of (to_option (to_msg garbage u32 id v m))
      ≡ some (
          le_bytes 4 14
          ++ (le_bytes 2 id
              ++ (le_bytes 4 v ++ (garbage 10 ∷ garbage 11 ∷ garbage 12 ∷ garbage 13 ∷ []))))
unfolding enc size
to_msg_leak garbage id v m small lt = rw (to_msg-frame garbage u32 id v m lt small (omega arith))
