-- ===== src/Transfer.antt =====
-- Tcp.cpp, from end to end: the `doSend` of one session and the `doRead` of the other.
mod Examples
use nicenet.Common.{
  ℕ, ◌≤◌, ◌≡◌, refl, sym, ap, subst, ◌∙◌, arith, false, List, [], ◌∷◌, ◌++◌, append-nil, All, Bytes,
  Result, ok, fault,
}
use nicenet.Message.{Message, Buff, null, inline, heap, block_of}
use nicenet.Framing.{Session}
use nicenet.Framing.Frames.{join}
use nicenet.Framing.Reading.{
  waits, do_read, IsRead, all_frames, reads_of, all_posted, do_read-posts,
}
use nicenet.Sending.{Sender, new_sender}
use nicenet.Sending.Steps.{Inv, pending}
use nicenet.Sending.Order.{Event, sends, writes, run, bytes_sent, IsFair, run_in_order}
use nicenet.Sending.Drain.{Drained, complete_all, complete_all-Drained}

-- The blocks of the messages that are queued; a message without a block sends nothing.
abbrev pub blocks : List Event → List Bytes
blocks [] = []
blocks (sends m ∷ es) = elim (m.buff) [
  | null ↦ blocks es
  | inline ↦ blocks es
  | heap b ↦ b ∷ blocks es
]
blocks (writes ec sent ∷ es) = blocks es

join-blocks : (es : List Event) → join (blocks es) [] ≡ bytes_sent es
join-blocks [] = refl
join-blocks (sends m ∷ es) = first m.buff ∙ ap (◌++◌ (block_of m)) (join-blocks es)
  where
    first :
        (b : Buff)
        → join
            (elim b [ null ↦ blocks es | inline ↦ blocks es | heap bytes ↦ bytes ∷ blocks es ])
            []
          ≡ (elim b [ null ↦ [] | inline ↦ [] | heap bytes ↦ bytes ]) ++ join (blocks es) []
    first null = refl
    first inline = refl
    first (heap bytes) = refl
join-blocks (writes ec sent ∷ es) = join-blocks es

-- Messages with a right header are queued at one end, some writes end meanwhile, and the session
-- is not removed for an error; then the writes that are left end well. What was written,
-- cut into reads that each end with a message and have at least one, makes the other end's
-- handlers get exactly the queued messages in their order, from a session with nothing pending.
pub transfer_lem :
    (es : List Event) (sender : Sender) (n : ℕ) (garbage : ℕ → ℕ) (fuel : ℕ)
    (fss : List (List Bytes)) (s : Session)
    → All IsFair es
    → run es new_sender ≡ ok sender
    → sender.removed ≡ false
    → pending sender.writing sender.send_list ≤ n
    → all_frames fss ≡ blocks es
    → All (IsRead fuel) fss
    → s.prev.buff ≡ null
    → (after : Sender) × (complete_all n sender ≡ ok after)
      × (after.written ≡ join (all_frames fss) [])
      × (do_read garbage fuel (reads_of fss) s ≡ waits (all_posted (blocks es) s))
transfer_lem es sender n garbage fuel fss s fair ran here enough cut rs e =
    let k = run_in_order es fair in
    let same : k.after ≡ sender =
      ap (λ (r : Result Sender). elim r [ ok a ↦ a | fault x ↦ k.after ]) (sym k.returns ∙ ran) in
    let inv : Inv sender (bytes_sent es) =
      subst (λ (x : Sender). Inv x (bytes_sent es)) same k.inv in
    let d = complete_all-Drained n sender (bytes_sent es) inv here enough in
    (
      d.after,
      d.returns,
      d.all ∙ sym (join-blocks es) ∙ ap (λ (fs : List Bytes). join fs []) (sym cut),
      do_read-posts garbage fuel fss s e rs ∙ ap (λ (fs : List Bytes). waits (all_posted fs s)) cut,
    )
