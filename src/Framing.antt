-- ===== src/Framing.antt =====
-- Tcp.cpp: `TcpSession::parseMsg`, which cuts what `doRead` has read into messages. A message may
-- end in a later read: `m_PreMsg` keeps its bytes.
pub mod Pending
pub mod Frames
pub mod Rest
pub mod Head
pub mod Growing
pub mod Split
pub mod Headers
pub mod Reading
mod Examples
use nicenet.Common.{
  ℕ, zero, suc, ◌+◌, ◌-◌, ◌%◌, ◌^◌, Bool, true, false, Option, none, some, List, [], ◌∷◌, ◌++◌, ltb,
  leb, if◌then◌else◌, length, take, drop, Bytes, le_bytes, of_le, Fault, Result, ok, fault,
  null_dereference, ◌>>=◌,
}
use nicenet.Message.{
  Message, Buff, null, inline, heap, alloc, splice, slice, get_size, from_buffer, swap,
}

-- `NETWORK_BUF_SIZE` and `MSG_SIZE`
abbrev pub network_buf_size : ℕ
network_buf_size = 16384

abbrev pub msg_size : ℕ
msg_size = 32768

-- `prev` is `m_PreMsg`; `posted` are the messages for which `handleMessage` was posted to the main
-- loop, the oldest first.
pub record Session : Type 0 where
  pub prev : Message
  pub posted : List Message

-- One call of `parseMsg` returns, or ends in a call of itself on the bytes that are left.
pub data Step : Type 0 where
  finish : Bool → Session → Step
  again : Session → Bytes → Step

abbrev pub post : Message → Session → Session
post msg s = record s { posted = s.posted ++ msg ∷ [] }

abbrev pub keep : Message → Session → Session
keep prev s = record s { prev = prev }

-- What `MessagePtr()` holds: the default constructor of `CopyablePtr` leaves its pointer null.
abbrev pub message_ptr : Option Message
message_ptr = none

-- `recvMsg->swap(prevMsg)`
unfoldable pub swap_through : Option Message → Message → Result (Message × Message)
unfolding swap
swap_through none prev = fault null_dereference
swap_through (some m) prev = ok (swap m prev)

-- `memcpy((unsigned char*)&prevMsg.m_writePoint + off, data, len)`
unfoldable pub poke : ℕ → Bytes → Message → Result Message
poke off src prev = do
  bytes ← splice off src (le_bytes 4 prev.write_point)
  ok (record prev { write_point = of_le bytes })

-- the first read of a message, with at least four bytes; the whole message is there
unfoldable pub deliver : (ℕ → ℕ) → Session → Bytes → ℕ → Result Step
deliver garbage s data_ msg_len = do
  recv_msg ← from_buffer garbage data_ msg_len
  ok (
      if ltb msg_len (length data_)
      then again (post recv_msg s) (drop msg_len data_)
      else finish true (post recv_msg s))

-- the same, where a part of the message is still to come
unfoldable pub start_long : (ℕ → ℕ) → Session → Bytes → ℕ → Result Step
start_long garbage s data_ msg_len = do
  block ← splice 0 data_ (alloc garbage msg_len)
  ok (finish true (keep (record s.prev { buff = heap block; write_point = length data_ }) s))

unfoldable pub parse_fresh : (ℕ → ℕ) → Session → Bytes → Result Step
parse_fresh garbage s data_ =
    let len = length data_ in
    let msg_len = of_le (take 4 data_) in
    if ltb len 4
    then (poke 0 data_ s.prev >>= λ p.
        ok (finish true (keep (record p { buff = inline; read_point = len }) s)))
    else if ltb msg_size msg_len
    then ok (finish false s)
    else if leb msg_len len
    then deliver garbage s data_ msg_len
    else start_long garbage s data_ msg_len

-- a later read, once the header is there; `cut` bytes of the read went into the header
unfoldable pub complete : Session → Bytes → Bytes → ℕ → ℕ → Result Step
complete s block data_ msg_len cut = do
  let missing = (msg_len + 2 ^ 32 - s.prev.write_point) % 2 ^ 32
  bytes ← slice cut missing data_
  whole ← splice s.prev.write_point bytes block
  swapped ← swap_through message_ptr (record s.prev { buff = heap whole })
  let s' = post swapped.0 (keep swapped.1 s)
  let rest = drop (cut + missing) data_
  ok (if ltb 0 (length rest) then again s' rest else finish true s')

unfoldable pub append : Session → Bytes → Bytes → ℕ → Result Step
append s block data_ cut = do
  let taken = (length data_ + 2 ^ 32 - cut) % 2 ^ 32
  bytes ← slice cut taken data_
  block' ← splice s.prev.write_point bytes block
  let write_point' = (s.prev.write_point + taken) % 2 ^ 32
  ok (finish true (keep (record s.prev { buff = heap block'; write_point = write_point' }) s))

unfoldable pub parse_body : Session → Bytes → Bytes → ℕ → Result Step
parse_body s block data_ cut =
    let msg_len = of_le (take 4 block) in
    if ltb msg_size msg_len
    then ok (finish false s)
    else if leb msg_len ((length data_ + s.prev.write_point + 2 ^ 32 - cut) % 2 ^ 32)
    then complete s block data_ msg_len cut
    else append s block data_ cut

-- a later read, while the header is not whole
unfoldable pub parse_header : (ℕ → ℕ) → Session → Bytes → Result Step
parse_header garbage s data_ =
    let len = length data_ in
    let cut = (4 + 2 ^ 32 - s.prev.read_point) % 2 ^ 32 in
    if ltb ((s.prev.read_point + len) % 2 ^ 32) 4
    then (poke s.prev.read_point data_ s.prev >>= λ p.
        ok (finish true (keep (record p { read_point = (s.prev.read_point + len) % 2 ^ 32 }) s)))
    else do
      bytes ← slice 0 cut data_
      p ← poke s.prev.read_point bytes s.prev
      block ← splice 0 (le_bytes 4 p.write_point) (alloc garbage p.write_point)
      parse_body (keep (record { buff = heap block; write_point = 4; read_point = 4 }) s) block
          data_ cut

unfoldable pub parse_at : (ℕ → ℕ) → Buff → Session → Bytes → Result Step
parse_at garbage null s data_ = parse_fresh garbage s data_
parse_at garbage inline s data_ = parse_header garbage s data_
parse_at garbage (heap block) s data_ = parse_body s block data_ 0

unfoldable pub parse_step : (ℕ → ℕ) → Session → Bytes → Result Step
parse_step garbage s data_ =
    if ltb network_buf_size (length data_)
    then ok (finish false s)
    else parse_at garbage s.prev.buff s data_

pub data Outcome : Type 0 where
  returned : Bool → Session → Outcome
  faulted : Fault → Outcome
  -- the calls are nested deeper than the fuel
  unfinished : Outcome

unfoldable pub parse_msg : (ℕ → ℕ) → ℕ → Session → Bytes → Outcome
parse_msg garbage zero s data_ = unfinished
parse_msg garbage (suc fuel) s data_ = elim (parse_step garbage s data_) [
  | ok (finish b s') ↦ returned b s'
  | ok (again s' rest) ↦ parse_msg garbage fuel s' rest
  | fault e ↦ faulted e
]
