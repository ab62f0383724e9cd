-- ===== src/Http/Replies.antt =====
-- HttpServer.cpp: how an `HttpConnection` sends its responses (`doSend`, and the function that the
-- destructor of `HttpResponse` posts). The functions run on the connection's worker thread.
pub mod Stream
mod Examples
use nicenet.Common.{
  ℕ, Bool, true, false, List, [], ◌∷◌, ◌++◌, ltb, if◌then◌else◌, length, take, drop, Bytes, Result,
  ok, fault, out_of_bounds,
}

-- `m_sendBuffers` and `m_IsSending`; `wire` has the bytes that the socket has taken, and `failed`
-- is set once a write has ended in an error: the handler has returned, and `m_IsSending` stays.
pub record Replies : Type 0 where
  pub send_buffers : List Bytes
  pub is_sending : Bool
  pub failed : Bool
  pub wire : Bytes

-- what `doSend` leaves in `m_IsSending`
unfoldable pub sending_of : List Bytes → Bool
sending_of [] = false
sending_of (b ∷ bs) = true

-- `doSend` starts the write of the front buffer, if there is one.
unfoldable pub do_send : Replies → Replies
unfolding sending_of
do_send s = record s { is_sending = sending_of s.send_buffers }

-- the response `ret` is there
unfoldable pub push : Bytes → Replies → Replies
unfolding do_send
push ret s =
    let s' = record s { send_buffers = s.send_buffers ++ ret ∷ [] } in
    if s.is_sending then s' else do_send s'

-- The handler of `async_write` on the buffers, without an error: `sent_size` bytes were taken.
unfoldable pub sent_on : ℕ → List Bytes → Replies → Result Replies
unfolding do_send
sent_on sent_size [] s = fault out_of_bounds
sent_on sent_size (b ∷ bs) s =
    let wire' = s.wire ++ take sent_size b in
    if ltb sent_size (length b)
    then ok (do_send (record s { send_buffers = drop sent_size b ∷ bs; wire = wire' }))
    else ok (do_send (record s { send_buffers = bs; wire = wire' }))

-- The handler with an error, before which `sent_size` bytes of the front buffer were taken.
unfoldable pub failed_on : ℕ → List Bytes → Replies → Replies
failed_on sent_size [] s = record s { failed = true }
failed_on sent_size (b ∷ bs) s = record s { failed = true; wire = s.wire ++ take sent_size b }

-- The handler runs at the end of a write that is in progress.
unfoldable pub on_sent : Bool → ℕ → Replies → Result Replies
unfolding sent_on failed_on
on_sent ec sent_size s =
    let sent = sent_on sent_size s.send_buffers s in
    let gone = failed_on sent_size s.send_buffers s in
    if s.failed then ok s else if s.is_sending then (if ec then ok gone else sent) else ok s
