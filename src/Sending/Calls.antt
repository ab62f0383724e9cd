-- ===== src/Sending/Calls.antt =====
-- A message to send, and the end of a write.
use nicenet.Common.{
  ℕ, ◌≤◌, ◌<◌, ◌≡◌, refl, sym, ap, subst, ◌∙◌, arith, Bool, true, false, Option, none, some, List,
  [], ◌∷◌, ◌++◌, append-nil, append_assoc, ltb, if◌then◌else◌, ◌||◌, length, All, All-append, Bytes,
  Result, ok, Bool-cases, inl, inr,
}
use nicenet.Message.{Message, block_of}
use nicenet.Sending.{
  Sender, Write, gathered, of_front, size_of, do_send, enqueue, after_write, on_written,
}
use nicenet.Sending.Gather.{IsSendable, bytes_of, bytes_of-append}
use nicenet.Sending.Steps.{waiting, Agrees, Live, Inv, live, broken, pending, Runs, do_send-Runs}

-- the message as it stands in the queue
abbrev queued : Message → Message
queued msg = record { buff = msg.buff; write_point = 6; read_point = 6 }

waiting-append :
    (w : Option Write) (b : Bool) (ms : List Message) (m : Message)
    → Agrees w b ms
    → waiting w (ms ++ queued m ∷ []) ≡ waiting w ms ++ block_of m
waiting-append none b ms m a = rw (bytes_of-append ms (queued m ∷ []), append-nil)
waiting-append (some (gathered n)) b ms m a = rw (bytes_of-append ms (queued m ∷ []), append-nil)
waiting-append (some (of_front n)) b [] m a = absurd a
waiting-append (some (of_front n)) b (k ∷ ms) m a =
    rw (bytes_of-append ms (queued m ∷ []), append-nil)

Agrees-append :
    (w : Option Write) (ms : List Message) (m : Message)
    → Agrees w true ms
    → Agrees w true (ms ++ m ∷ [])
Agrees-append none ms m a = cc (a.0)
Agrees-append (some (gathered n)) ms m a = a
Agrees-append (some (of_front n)) [] m a = absurd a
Agrees-append (some (of_front n)) (k ∷ ms) m a = a

idle_waiting :
    (w : Option Write) (ms : List Message) → Agrees w false ms → waiting w ms ≡ bytes_of ms
idle_waiting none ms a = refl
idle_waiting (some (gathered n)) ms a = cc
idle_waiting (some (of_front n)) [] a = absurd a
idle_waiting (some (of_front n)) (k ∷ ms) a = cc

-- The call returns, in a sender that is in order with `total`.
pub record Keeps (r : Result Sender) (total : Bytes) : Type 0 where
  pub after : Sender
  pub returns : r ≡ ok after
  pub inv : Inv after total

-- Such a call that leaves the session where it is.
abbrev KeepsLive : Result Sender → Bool → Bytes → Type 0
KeepsLive r removed total =
    (after : Sender) × (r ≡ ok after) × (after.removed ≡ removed) × Live after total

enqueue_busy :
    (msg : Message) (s : Sender) (total : Bytes)
    → IsSendable msg
    → Live s total
    → s.is_sending ≡ true
    → KeepsLive (enqueue msg s) s.removed (total ++ block_of msg)
unfolding enqueue
enqueue_busy msg s total h inv busy = (
  record s { send_list = s.send_list ++ queued msg ∷ [] },
  rw busy,
  refl,
  record {
    sendable = All-append IsSendable s.send_list (queued msg ∷ []) inv.sendable (h, tt);
    in_order =
        ap (◌++◌ s.written) (waiting-append s.writing s.is_sending s.send_list msg inv.agrees)
        ∙ sym (append_assoc s.written (waiting s.writing s.send_list) (block_of msg))
        ∙ ap (λ (t : Bytes). t ++ block_of msg) inv.in_order;
    agrees = rw busy (Agrees-append s.writing s.send_list (queued msg) (rw busy at inv.agrees));
  },
)

enqueue_idle :
    (msg : Message) (s : Sender) (total : Bytes)
    → IsSendable msg
    → Live s total
    → s.is_sending ≡ false
    → KeepsLive (enqueue msg s) s.removed (total ++ block_of msg)
unfolding enqueue
enqueue_idle msg s total h inv idle =
    let same = idle_waiting s.writing s.send_list (rw idle at inv.agrees) in
    let s' = record s { send_list = s.send_list ++ queued msg ∷ [] } in
    let r =
      do_send-Runs s' (total ++ block_of msg)
        (All-append IsSendable s.send_list (queued msg ∷ []) inv.sendable (h, tt))
        (ap (◌++◌ s.written) (bytes_of-append s.send_list (queued msg ∷ []) ∙ rw append-nil)
          ∙ sym (append_assoc s.written (bytes_of s.send_list) (block_of msg))
          ∙ ap (λ (t : Bytes). t ++ block_of msg)
              (ap (◌++◌ s.written) (sym same) ∙ inv.in_order)) in
    (r.after, ap (λ (b : Bool). if b then ok s' else do_send s') idle ∙ r.returns, r.kept, r.inv)

-- After an error the message only waits.
enqueue_broken :
    (msg : Message) (s : Sender)
    → s.is_sending ≡ true
    → enqueue msg s ≡ ok (record s { send_list = s.send_list ++ queued msg ∷ [] })
unfolding enqueue
enqueue_broken msg s busy = rw busy

Keeps-live : (r : Result Sender) (total : Bytes) → KeepsLive r false total → Keeps r total
Keeps-live r total k =
    let (after, returns, kept, inv) = k in
    record { after = after; returns = returns; inv = live kept inv }

pub enqueue-Keeps :
    (msg : Message) (s : Sender) (total : Bytes)
    → IsSendable msg
    → Inv s total
    → Keeps (enqueue msg s) (total ++ block_of msg)
enqueue-Keeps msg s total h (live here inv) =
    let all = total ++ block_of msg in
    Keeps-live (enqueue msg s) all (
      subst (λ (b : Bool). KeepsLive (enqueue msg s) b all) here
        (elim (Bool-cases s.is_sending) [
          | inl busy ↦ enqueue_busy msg s total h inv busy
          | inr idle ↦ enqueue_idle msg s total h inv idle
        ]))
enqueue-Keeps msg s total h (broken gone busy idle rest e) = record {
  after = record s { send_list = s.send_list ++ queued msg ∷ [] };
  returns = enqueue_broken msg s busy;
  inv =
      broken gone busy idle (rest ++ block_of msg) (
        sym (append_assoc s.written rest (block_of msg)) ∙ ap (λ (t : Bytes). t ++ block_of msg) e);
}

-- A write that ended well: one write fewer is to end.
after_write-Runs :
    (w : Write) (ms : List Message) (s : Sender) (total : Bytes)
    → s.writing ≡ some w
    → s.send_list ≡ ms
    → All IsSendable ms
    → s.written ++ waiting (some w) ms ≡ total
    → Agrees (some w) s.is_sending ms
    → (r : Runs (after_write w ms s) s.removed total (length ms)) × (pending r.after.writing
          r.after.send_list
        < pending (some w) ms)
unfolding after_write
after_write-Runs (gathered n) [] s total e l h o a = (
  record {
    after = record s { is_sending = false; writing = none };
    returns = refl;
    inv = record { sendable = rw l tt; in_order = rw l o; agrees = (refl, l) };
    kept = refl;
    bounded = omega arith;
  },
  omega arith,
)
after_write-Runs (gathered n) (m ∷ ms) s total e l h o a =
    let r = do_send-Runs s total (rw l h) (rw l o) in
    let most : pending r.after.writing r.after.send_list ≤ length (m ∷ ms) = rw l at r.bounded in
    (
      record { after = r.after; returns = r.returns; inv = r.inv; kept = r.kept; bounded = most },
      omega arith,
    )
after_write-Runs (of_front n) [] s total e l h o a = absurd a
after_write-Runs (of_front n) (m ∷ []) s total e l h o a = (
  record {
    after = record s { send_list = []; is_sending = false; writing = none };
    returns = refl;
    inv = record { sendable = tt; in_order = o; agrees = (refl, refl) };
    kept = refl;
    bounded = omega arith;
  },
  omega arith,
)
after_write-Runs (of_front n) (m ∷ k ∷ ms) s total e l h o a =
    let r = do_send-Runs (record s { send_list = k ∷ ms }) total h.1 o in
    (
      record {
        after = r.after;
        returns = r.returns;
        inv = r.inv;
        kept = r.kept;
        bounded = omega (arith, r.bounded);
      },
      omega (arith, r.bounded),
    )

-- The handler while a write is in progress.
on_written-some :
    (w : Write) (ec : Bool) (sent : ℕ) (s : Sender)
    → s.writing ≡ some w
    → on_written ec sent s ≡ (
        if ec || ltb sent (size_of w)
        then ok (record s { removed = true; writing = none })
        else after_write w s.send_list s)
unfolding on_written
on_written-some w ec sent s e =
    ap
      (λ (o : Option Write). elim o [
        | none ↦ ok s
        | some v ↦
            if ec || ltb sent (size_of v)
            then ok (record s { removed = true; writing = none })
            else after_write v s.send_list s
      ])
      e

module _ (w : Write) (ec : Bool) (sent : ℕ) (s : Sender) (e : s.writing ≡ some w) where
  pub on_written_well :
      (ec || ltb sent (size_of w)) ≡ false → on_written ec sent s ≡ after_write w s.send_list s
  on_written_well good =
      on_written-some w ec sent s e
      ∙ ap
          (λ (b : Bool).
            if b
            then ok (record s { removed = true; writing = none })
            else after_write w s.send_list s)
          good

  on_written_badly :
      (ec || ltb sent (size_of w)) ≡ true
      → on_written ec sent s ≡ ok (record s { removed = true; writing = none })
  on_written_badly bad =
      on_written-some w ec sent s e
      ∙ ap
          (λ (b : Bool).
            if b
            then ok (record s { removed = true; writing = none })
            else after_write w s.send_list s)
          bad

on_written-none :
    (ec : Bool) (sent : ℕ) (s : Sender) → s.writing ≡ none → on_written ec sent s ≡ ok s
unfolding on_written
on_written-none ec sent s e =
    ap
      (λ (o : Option Write). elim o [
        | none ↦ ok s
        | some v ↦
            if ec || ltb sent (size_of v)
            then ok (record s { removed = true; writing = none })
            else after_write v s.send_list s
      ])
      e

Agrees-busy :
    (w : Write) (sending : Bool) (ms : List Message) → Agrees (some w) sending ms → sending ≡ true
Agrees-busy (gathered n) sending ms a = a
Agrees-busy (of_front n) sending [] a = absurd a
Agrees-busy (of_front n) sending (m ∷ ms) a = a

-- What `after_write-Runs` says of the session's own write and list.
pub written_well :
    (w : Write) (s : Sender) (total : Bytes)
    → s.writing ≡ some w
    → Live s total
    → (r : Runs (after_write w s.send_list s) s.removed total (length s.send_list)) × (pending
          r.after.writing r.after.send_list
        < pending (some w) s.send_list)
written_well w s total e inv =
    after_write-Runs w s.send_list s total e refl inv.sendable
      (ap (λ (o : Option Write). s.written ++ waiting o s.send_list) (sym e) ∙ inv.in_order)
      (subst (λ (o : Option Write). Agrees o s.is_sending s.send_list) e inv.agrees)

written_badly :
    (w : Write) (s : Sender) (total : Bytes)
    → s.writing ≡ some w
    → Live s total
    → Inv (record s { removed = true; writing = none }) total
written_badly w s total e inv =
    broken refl
      (Agrees-busy w s.is_sending s.send_list
        (subst (λ (o : Option Write). Agrees o s.is_sending s.send_list) e inv.agrees))
      refl (waiting s.writing s.send_list) inv.in_order

pub on_written-Keeps :
    (w : Option Write) (ec : Bool) (sent : ℕ) (s : Sender) (total : Bytes)
    → s.writing ≡ w
    → Inv s total
    → Keeps (on_written ec sent s) total
on_written-Keeps none ec sent s total e inv = record {
  after = s;
  returns = on_written-none ec sent s e;
  inv = inv;
}
on_written-Keeps (some w) ec sent s total e (broken gone busy idle rest o) =
    absurd (let clash : none ≡ some w = sym idle ∙ e in cc)
on_written-Keeps (some w) ec sent s total e (live here inv) =
    let (r, _) = written_well w s total e inv in
    elim (Bool-cases (ec || ltb sent (size_of w))) [
      | inl bad ↦ record {
        after = record s { removed = true; writing = none };
        returns = on_written_badly w ec sent s e bad;
        inv = written_badly w s total e inv;
      }
      | inr good ↦ record {
        after = r.after;
        returns = on_written_well w ec sent s e good ∙ r.returns;
        inv = live (r.kept ∙ here) r.inv;
      }
    ]
