-- ===== src/Kcp.antt =====
-- Kcp.cpp: the datagrams of the KCP transport and the sessions over it. `ikcp_input` and
-- `ikcp_recv` are the KCP library's: a datagram ends in what is handed to the first, and what
-- the second returns is an argument here.
pub mod Inputs
pub mod Datagrams
pub mod Pure
pub mod Silence
pub mod Server
pub mod Login
mod Examples
use nicenet.Common.{
  ℕ, zero, suc, ◌+◌, ◌-◌, ◌%◌, ◌^◌, Bool, true, false, not, ◌&&◌, Option, none, some, List, [], ◌∷◌,
  ◌++◌, ltb, leb, ◌==◌, if◌then◌else◌, length, take, drop, Bytes, le_bytes, of_le, Fault, Result,
  ok, fault, out_of_bounds, ◌>>=◌,
}
use nicenet.Common.Text.{bytes_eq}
use nicenet.Message.{Message, from_buffer, get_msg_id, get_size, block_of, slice}
use nicenet.Framing.{Session, Outcome, returned, faulted, unfinished}
use nicenet.Framing
use nicenet.Handshake.{Crypto, part, public_key_size}

abbrev pub ikcp_overhead : ℕ
ikcp_overhead = 89

abbrev pub worker_thread_count : ℕ
worker_thread_count = 8

-- What a datagram makes the receive handler do. `answers` takes the waiting session of the sender
-- and has the key and the signature, if there is room for them; `inputs` hands data to a
-- worker's session; `hands` hands a message to a session.
pub data Received : Type 0 where
  connects : Received
  answers : Option Bytes → Received
  inputs : ℕ → Bytes → Bytes → Received
  hands : Bytes → Message → Received
  ignores : Received
  -- the handler returns without another call of `startReceive`
  stops : Received

-- The branch for reliable data, after the check of its size `n`: what is posted to a worker with
-- the uid and the data.
unfoldable pub receive_input : Bytes → ℕ → Received
receive_input buffer n =
    let worker_index = of_le (part 65 2 buffer) in
    if ltb worker_index worker_thread_count
    then inputs worker_index (part 1 64 buffer) (part 65 (n - 1 - public_key_size) buffer)
    else ignores

-- The branch for a message outside the KCP stream. What `Message` copies starts behind the first
-- byte and may reach the zero byte that ends the string.
unfoldable pub receive_pure : (ℕ → ℕ) → Bytes → ℕ → Result Received
unfolding from_buffer
receive_pure garbage buffer n =
    let len = of_le (part 65 4 buffer) in
    let msg = from_buffer garbage (drop 1 buffer ++ 0 ∷ []) len in
    if ltb len (n - 1 - public_key_size)
    then ok stops
    else msg >>= λ m. ok (hands (part 1 64 buffer) m)

-- The handler of `startReceive`: `buffer` has NETWORK_BUF_SIZE bytes, `n` of them from this
-- datagram and the others from earlier ones.
unfoldable pub receive : (ℕ → ℕ) → Bytes → ℕ → Result Received
unfolding receive_input receive_pure
receive garbage buffer n =
    let kind = take 1 buffer in
    if bytes_eq kind (1 ∷ []) && n == 1
    then ok connects
    else if bytes_eq kind (2 ∷ [])
    then ok (answers (if leb 129 n then some (part 1 128 buffer) else none))
    else if bytes_eq kind (3 ∷ []) && leb ikcp_overhead n
    then ok (receive_input buffer n)
    else if bytes_eq kind (4 ∷ []) && ltb 65 n
    then receive_pure garbage buffer n
    else ok ignores

-- The client's handler, `startRead2`.
unfoldable pub client_receive : (ℕ → ℕ) → Bytes → ℕ → Result Received
unfolding receive_input receive_pure
client_receive garbage buffer n =
    let kind = take 1 buffer in
    if bytes_eq kind (3 ∷ []) && leb ikcp_overhead n
    then ok (receive_input buffer n)
    else if bytes_eq kind (4 ∷ []) && ltb 65 n
    then receive_pure garbage buffer n
    else ok ignores

-- `checkSign` of what an answer holds
unfoldable pub check_sign : Crypto → Bytes → Bytes → Bytes → Bool
check_sign crypto server_key hash received =
    let client_key = take public_key_size received in
    if bytes_eq server_key client_key
    then false
    else crypto.verify client_key hash (part public_key_size 64 received)

-- `udpOutput`: the datagram that carries `buf` for a session, if the session has a uid.
unfoldable pub udp_output : Bytes → Bytes → Option Bytes
udp_output uid buf =
    if ltb (length uid) public_key_size then none else some (3 ∷ (take public_key_size uid ++ buf))

-- `doSend` with `pureUdp`
unfoldable pub pure_datagram : Message → Result Bytes
unfolding slice get_size
pure_datagram msg = do bytes ← slice 0 (get_size msg) (block_of msg); ok (4 ∷ bytes)

-- `kcpUpdate` at a time in milliseconds, with what `ikcp_check` returns for its 32 bits: whether
-- it updates, and `m_kcpUpdateTime` after it.
unfoldable pub kcp_update : (ℕ → ℕ) → ℕ → ℕ → Bool × ℕ
kcp_update check milli_sec kcp_update_time =
    let current = milli_sec % 2 ^ 32 in
    if leb kcp_update_time milli_sec
    then (true, (milli_sec + (check current + 2 ^ 32 - current) % 2 ^ 32) % 2 ^ 64)
    else (false, kcp_update_time)

-- `KcpSession::parseMsg` has the text of `TcpSession::parseMsg`.
unfoldable pub parse_msg : (ℕ → ℕ) → ℕ → Session → Bytes → Outcome
parse_msg = Framing.parse_msg

-- The state that `KcpSessionS::doRead` and `doPing` keep.
pub record Peer : Type 0 where
  pub framing : Session
  pub last_ping_time : ℕ
  pub last_pong_time : ℕ
  pub wait_remove : Bool

pub data Reading : Type 0 where
  reads : Peer → Reading
  breaks : Fault → Reading
  runs_on : Reading

-- The loop over what `ikcp_recv` returns, up to the first result that is not positive.
unfoldable pub read_all : (ℕ → ℕ) → ℕ → ℕ → List Bytes → Peer → Reading
unfolding parse_msg
read_all garbage fuel now [] p =
    if ltb (p.last_pong_time + 5) now then reads (record p { wait_remove = true }) else reads p
read_all garbage fuel now (chunk ∷ chunks) p = elim (parse_msg garbage fuel p.framing chunk) [
  | returned b s ↦
      let rest =
        read_all garbage fuel now chunks
          (record p { framing = s; last_ping_time = now; last_pong_time = now }) in
      if b then rest else reads (record p { framing = s; wait_remove = true })
  | faulted e ↦ breaks e
  | unfinished ↦ runs_on
]

unfoldable pub first_pong : ℕ → Peer → Peer
first_pong now p = if p.last_pong_time == 0 then record p { last_pong_time = now } else p

-- `KcpSessionS::doRead` at the time `now`; `updated` is what `kcpUpdate` returned.
unfoldable pub do_read : (ℕ → ℕ) → ℕ → Bool → ℕ → List Bytes → Peer → Reading
unfolding read_all first_pong
do_read garbage fuel updated now chunks p =
    let reading = read_all garbage fuel now chunks (first_pong now p) in
    if p.wait_remove then reads p else if updated then reading else reads p

-- `doPing`: whether it sends a request, and the session after it
unfoldable pub do_ping : ℕ → Peer → Bool × Peer
do_ping now p =
    if p.last_ping_time == 0
    then (false, record p { last_ping_time = now })
    else if ltb p.last_ping_time now
    then (true, record p { last_ping_time = now })
    else (false, p)
