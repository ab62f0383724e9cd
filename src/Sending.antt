-- ===== src/Sending.antt =====
-- Tcp.cpp: `TcpSession::doSend`, the queue of the messages that a session sends. Its functions
-- run on the session's own worker thread, one after another.
pub mod Gather
pub mod Steps
pub mod Calls
pub mod Order
pub mod Drain
mod Examples
use nicenet.Common.{
  ℕ, ◌+◌, ◌%◌, ◌^◌, Bool, true, false, ◌&&◌, ◌||◌, Option, none, some, List, [], ◌∷◌, ◌++◌, ltb,
  leb, if◌then◌else◌, length, Bytes, Result, ok, fault, out_of_bounds, ◌>>=◌,
}
use nicenet.Framing.{network_buf_size}
use nicenet.Message.{Message, null, inline, heap, slice, get_size, block_of}

-- The `async_write` in progress, with its size: of messages copied into `data2`, a local array of
-- `doSend`, or of the block of the front message, which stays in the list until it is sent.
pub data Write : Type 0 where
  gathered : ℕ → Write
  of_front : ℕ → Write

-- `written` has the bytes that were handed to `async_write`, in order. `removed` tells that the end
-- of a write has called `removeSelf`: the write is over then, and `m_IsSending` stays set.
pub record Sender : Type 0 where
  pub send_list : List Message
  pub is_sending : Bool
  pub writing : Option Write
  pub written : Bytes
  pub removed : Bool

abbrev pub new_sender : Sender
new_sender = record {
  send_list = [];
  is_sending = false;
  writing = none;
  written = [];
  removed = false;
}

-- the first loop of `doSend`
unfoldable pub drop_null : List Message → List Message
drop_null [] = []
drop_null (m ∷ ms) =
    let rest = drop_null ms in elim (m.buff) [ null ↦ rest | inline ↦ m ∷ ms | heap b ↦ m ∷ ms ]

-- the second loop: `data2` holds `size` bytes so far
unfoldable pub gather : List Message → Bytes → Result (Bytes × List Message)
unfolding slice get_size
gather [] data2 = ok (data2, [])
gather (m ∷ ms) data2 =
    let rest = λ (more : Bytes). gather ms (data2 ++ more) in
    if ltb network_buf_size ((length data2 + get_size m) % 2 ^ 32)
    then ok (data2, m ∷ ms)
    else if ltb network_buf_size (length data2 + get_size m)
    then fault out_of_bounds
    else slice 0 (get_size m) (block_of m) >>= rest

unfoldable pub write_gathered : List Message → Sender → Result Sender
unfolding gather
write_gathered q s = do
  (bytes, left) ← gather q []
  ok (record s {
    send_list = left;
    is_sending = true;
    writing = some (gathered (length bytes));
    written = s.written ++ bytes;
  })

unfoldable pub write_front : Message → List Message → Sender → Result Sender
unfolding slice get_size
write_front m ms s = do
  bytes ← slice 0 (get_size m) (block_of m)
  ok (record s {
    send_list = m ∷ ms;
    is_sending = true;
    writing = some (of_front (get_size m));
    written = s.written ++ bytes;
  })

unfoldable pub send_queue : List Message → Sender → Result Sender
unfolding write_gathered write_front get_size
send_queue [] s = ok (record s { send_list = []; is_sending = false; writing = none })
send_queue (m ∷ []) s = write_front m [] s
send_queue (m ∷ n ∷ ms) s =
    if leb (get_size m) network_buf_size
    then write_gathered (m ∷ n ∷ ms) s
    else write_front m (n ∷ ms) s

-- `doSend()`
unfoldable pub do_send : Sender → Result Sender
unfolding drop_null send_queue
do_send s = send_queue (drop_null s.send_list) s

-- the function that `doSend(Message&)` posts, with the message that it took over
unfoldable pub enqueue : Message → Sender → Result Sender
unfolding do_send
enqueue msg s =
    let back : Message = record { buff = msg.buff; write_point = 6; read_point = 6 } in
    let s' = record s { send_list = s.send_list ++ back ∷ [] } in
    if s.is_sending then ok s' else do_send s'

abbrev size_of : Write → ℕ
size_of (gathered n) = n
size_of (of_front n) = n

unfoldable pub after_write : Write → List Message → Sender → Result Sender
unfolding do_send
after_write (gathered n) [] s = ok (record s { is_sending = false; writing = none })
after_write (gathered n) (m ∷ ms) s = do_send s
after_write (of_front n) [] s = fault out_of_bounds
after_write (of_front n) (m ∷ []) s =
    ok (record s { send_list = []; is_sending = false; writing = none })
after_write (of_front n) (m ∷ k ∷ ms) s = do_send (record s { send_list = k ∷ ms })

-- The handler of `async_write`, which has sent `sent` bytes; `ec` tells an error. It runs once, at
-- the end of the write in progress.
unfoldable pub on_written : Bool → ℕ → Sender → Result Sender
unfolding after_write
on_written ec sent s = elim (s.writing) [
  | none ↦ ok s
  | some w ↦
      if ec || ltb sent (size_of w)
      then ok (record s { removed = true; writing = none })
      else after_write w s.send_list s
]
