-- ===== src/Message.antt =====
-- Message.h: the class `Message`, a length-prefixed buffer with a write and a read offset.
-- `m_buff` is null, points at the message's own `m_writePoint` (the receive code keeps up to
-- three bytes of a header there), or is a block of the heap. `garbage` stands for what the
-- allocator leaves in a new block.
pub mod Codec
pub mod Layout
pub mod Write
pub mod Read
pub mod RoundTrip
pub mod Truncated
mod Examples
use nicenet.Common.{
  ℕ, zero, suc, ◌+◌, ◌%◌, ◌^◌, Bool, List, [], ◌∷◌, ◌++◌, ltb, leb, if◌then◌else◌, length, take,
  drop, Bytes, le_bytes, of_le, Result, ok, fault, null_dereference, out_of_bounds, ◌>>=◌,
}

pub data Buff : Type 0 where
  null : Buff
  inline : Buff
  heap : Bytes → Buff

pub record Message : Type 0 where
  pub buff : Buff
  pub write_point : ℕ
  pub read_point : ℕ

abbrev pub empty : Message
empty = record { buff = null; write_point = 6; read_point = 6 }

-- the block that the message owns
abbrev pub block_of : Message → Bytes
block_of m = elim (m.buff) [ null ↦ [] | inline ↦ [] | heap b ↦ b ]

-- `new unsigned char[size]`
abbrev pub alloc : (ℕ → ℕ) → ℕ → Bytes
alloc garbage zero = []
alloc garbage (suc n) = garbage zero ∷ alloc (λ i. garbage (suc i)) n

-- `memcpy(block + off, src, size)`
unfoldable pub splice : ℕ → Bytes → Bytes → Result Bytes
splice off src block =
    if leb (off + length src) (length block)
    then ok (take off block ++ (src ++ drop (off + length src) block))
    else fault out_of_bounds

-- The bytes `[off, off + size)` of a block.
unfoldable pub slice : ℕ → ℕ → Bytes → Result Bytes
slice off size block =
    if leb (off + size) (length block) then ok (take size (drop off block)) else fault out_of_bounds

-- `getSize`: the function returns ui32, so of what `*(unsigned long*)` reads the first four bytes
-- are kept.
unfoldable pub get_size : Message → ℕ
get_size m = elim (m.buff) [ null ↦ 0 | inline ↦ 0 | heap b ↦ of_le (take 4 b) ]

unfoldable pub get_msg_id : Message → ℕ
get_msg_id m = elim (m.buff) [ null ↦ 0 | inline ↦ 0 | heap b ↦ of_le (take 2 (drop 4 b)) ]

-- `clear`: the block, if there is one, is freed.
abbrev pub clear : Message → Message
clear m = empty

unfoldable pub build_buff : (ℕ → ℕ) → ℕ → Message → Result Message
unfolding splice
build_buff garbage size m = do
  block ← splice 0 (le_bytes 4 (size % 2 ^ 32)) (alloc garbage size)
  ok (record (clear m) { buff = heap block })

store_id : ℕ → Message → Result Message
unfolding splice
store_id id m = elim (m.buff) [
  | null ↦ fault null_dereference
  | inline ↦ fault out_of_bounds
  | heap b ↦ do b' ← splice 4 (le_bytes 2 (id % 2 ^ 16)) b; ok (record m { buff = heap b' })
]

-- `ID`
unfoldable pub set_id : (ℕ → ℕ) → ℕ → Message → Result Message
unfolding build_buff store_id
set_id garbage id m = elim (m.buff) [
  | null ↦ build_buff garbage 6 m >>= store_id id
  | inline ↦ store_id id m
  | heap b ↦ store_id id m
]

-- `Message(const void* buff, size_t size_)`; `src` is the memory from `buff` on.
unfoldable pub from_buffer : (ℕ → ℕ) → Bytes → ℕ → Result Message
unfolding build_buff splice slice
from_buffer garbage src size = if ltb size 6 then ok empty else do
  m ← build_buff garbage size empty
  bytes ← slice 0 size src
  block ← splice 0 bytes (elim (m.buff) [ null ↦ [] | inline ↦ [] | heap b ↦ b ])
  ok (record m { buff = heap block })

memcpy_at : Bytes → Message → Result Message
unfolding splice
memcpy_at src m = elim (m.buff) [
  | null ↦ fault null_dereference
  | inline ↦ fault out_of_bounds
  | heap b ↦ do
    b' ← splice m.write_point src b
    ok (record m { buff = heap b'; write_point = (m.write_point + length src) % 2 ^ 32 })
]

-- `write_data` checks that there is a message, not that it has room.
unfoldable pub write_data : Bytes → Message → Result Message
unfolding get_size memcpy_at
write_data src m = if ltb (get_size m) 1 then ok m else memcpy_at src m

bytes_at : ℕ → Message → Result (Bytes × Message)
unfolding slice
bytes_at size m = elim (m.buff) [
  | null ↦ fault null_dereference
  | inline ↦ fault out_of_bounds
  | heap b ↦ do
    bytes ← slice m.read_point size b
    ok (bytes, record m { read_point = (m.read_point + size) % 2 ^ 32 })
]

-- `read_data` with the access that every caller makes through the pointer it returns: past the
-- end of the message that pointer is null.
unfoldable pub read_data : ℕ → Message → Result (Bytes × Message)
unfolding get_size bytes_at
read_data size m =
    if ltb (get_size m) (m.read_point + size) then fault null_dereference else bytes_at size m

-- `m.swap(msg)`, as the pair (m, msg) after the call; `serialize` does nothing.
unfoldable pub swap : Message → Message → Message × Message
swap m msg = (
  record { buff = msg.buff; write_point = 6; read_point = 6 },
  record { buff = m.buff; write_point = 6; read_point = 6 },
)
