-- ===== src/Sending/Order.antt =====
-- Every sequence of messages to send and of writes that end.
use nicenet.Common.{
  ℕ, refl, Bool, List, [], ◌∷◌, ◌++◌, append-nil, append_assoc, All, Bytes, Result, ok, ◌>>=◌,
}
use nicenet.Message.{Message, block_of}
use nicenet.Sending.{Sender, new_sender, enqueue, on_written}
use nicenet.Sending.Gather.{IsSendable}
use nicenet.Sending.Steps.{Inv, live}
use nicenet.Sending.Calls.{Keeps, enqueue-Keeps, on_written-Keeps}

-- What happens to a session: a message to send, or the end of a write.
pub data Event : Type 0 where
  sends : Message → Event
  writes : Bool → ℕ → Event

unfoldable pub run : List Event → Sender → Result Sender
run [] s = ok s
run (sends m ∷ es) s = do s' ← enqueue m s; run es s'
run (writes ec sent ∷ es) s = do s' ← on_written ec sent s; run es s'

abbrev pub bytes_sent : List Event → Bytes
bytes_sent [] = []
bytes_sent (sends m ∷ es) = block_of m ++ bytes_sent es
bytes_sent (writes ec sent ∷ es) = bytes_sent es

abbrev pub IsFair : Event → Type 0
IsFair (sends m) = IsSendable m
IsFair (writes ec sent) = Unit

run-Keeps :
    (es : List Event) (s : Sender) (total : Bytes)
    → All IsFair es
    → Inv s total
    → Keeps (run es s) (total ++ bytes_sent es)
unfolding run
run-Keeps [] s total hs inv = record { after = s; returns = refl; inv = rw append-nil inv }
run-Keeps (sends m ∷ es) s total hs inv =
    let k = enqueue-Keeps m s total hs.0 inv in
    let r = run-Keeps es k.after (total ++ block_of m) hs.1 k.inv in
    record {
      after = r.after;
      returns = rw (k.returns) r.returns;
      inv = rw (← append_assoc total (block_of m) (bytes_sent es)) r.inv;
    }
run-Keeps (writes ec sent ∷ es) s total hs inv =
    let k = on_written-Keeps s.writing ec sent s total refl inv in
    let r = run-Keeps es k.after total hs.1 k.inv in
    record { after = r.after; returns = rw (k.returns) r.returns; inv = r.inv }

-- However messages with a right header are queued and writes end, well or in an error, no call
-- faults and at most one write is in progress. Until a write ends in an error, `m_IsSending` is set
-- exactly while a write is in progress, and the bytes that were handed to `async_write`, with the
-- bytes that wait behind them, are the bytes of all queued messages in the order in which they
-- came. Afterwards no write is in progress, `m_IsSending` stays set, and the bytes that were handed
-- to `async_write` are a front of the bytes of all queued messages.
pub run_in_order : (es : List Event) → All IsFair es → Keeps (run es new_sender) (bytes_sent es)
run_in_order es hs =
    run-Keeps es new_sender [] hs
      (live refl (record { sendable = tt; in_order = refl; agrees = (refl, refl) }))
