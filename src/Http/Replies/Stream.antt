-- ===== src/Http/Replies/Stream.antt =====
-- What the client of a connection gets.
use nicenet.Common.{
  ℕ, ◌≡◌, refl, sym, ap, subst, ◌∙◌, Bool, true, false, List, [], ◌∷◌, ◌++◌, append-nil,
  append_assoc, ltb, ltb→le, if◌then◌else◌, length, take, drop, take-append-drop, take_all, Bytes,
  Result, ok, ◌>>=◌, Bool-cases, inl, inr,
}
use nicenet.Http.Replies.{Replies, sending_of, do_send, push, sent_on, failed_on, on_sent}

abbrev pub concat : List Bytes → Bytes
concat [] = []
concat (b ∷ bs) = b ++ concat bs

concat-append : (bs : List Bytes) (r : Bytes) → concat (bs ++ r ∷ []) ≡ concat bs ++ r
concat-append [] r = append-nil r
concat-append (b ∷ bs) r = ap (◌++◌ b) (concat-append bs r) ∙ sym (append_assoc b (concat bs) r)

-- `m_IsSending` is set exactly while there is a buffer.
abbrev pub Matches : Bool → List Bytes → Type 0
Matches true [] = ⊥
Matches true (b ∷ bs) = Unit
Matches false [] = Unit
Matches false (b ∷ bs) = ⊥

-- `total` is all responses so far. Until a write fails, what was sent and what waits are they, and
-- afterwards what was sent is a front of them, and `m_IsSending` stays set.
pub data Inv (s : Replies) (total : Bytes) : Type 0 where
  live :
      s.failed ≡ false
      → s.wire ++ concat s.send_buffers ≡ total
      → Matches s.is_sending s.send_buffers
      → Inv s total
  broken :
      s.failed ≡ true → s.is_sending ≡ true → (rest : Bytes) → s.wire ++ rest ≡ total → Inv s total

pub record Keeps (r : Result Replies) (total : Bytes) : Type 0 where
  pub after : Replies
  pub returns : r ≡ ok after
  pub inv : Inv after total

sending_of-Matches : (bs : List Bytes) → Matches (sending_of bs) bs
unfolding sending_of
sending_of-Matches [] = tt
sending_of-Matches (b ∷ bs) = tt

do_send-Inv :
    (s : Replies) (total : Bytes)
    → s.failed ≡ false
    → s.wire ++ concat s.send_buffers ≡ total
    → Inv (do_send s) total
unfolding do_send
do_send-Inv s total f e = live f e (sending_of-Matches s.send_buffers)

Matches-append : (bs : List Bytes) (r : Bytes) → Matches true bs → Matches true (bs ++ r ∷ [])
Matches-append [] r h = absurd h
Matches-append (b ∷ bs) r h = tt

push-Inv :
    (ret : Bytes) (s : Replies) (total : Bytes) → Inv s total → Inv (push ret s) (total ++ ret)
unfolding push
push-Inv ret s total (live f e m) =
    let s' = record s { send_buffers = s.send_buffers ++ ret ∷ [] } in
    let order : s.wire ++ concat (s.send_buffers ++ ret ∷ []) ≡ total ++ ret =
      ap (◌++◌ s.wire) (concat-append s.send_buffers ret)
      ∙ sym (append_assoc s.wire (concat s.send_buffers) ret)
      ∙ ap (λ (t : Bytes). t ++ ret) e in
    elim (Bool-cases s.is_sending) [
      | inl busy ↦
          subst (λ (b : Bool). Inv (if b then s' else do_send s') (total ++ ret)) (sym busy)
            (live f order (
              subst (λ (b : Bool). Matches b (s.send_buffers ++ ret ∷ [])) (sym busy)
                (Matches-append s.send_buffers ret
                  (subst (λ (b : Bool). Matches b s.send_buffers) busy m))))
      | inr idle ↦
          subst (λ (b : Bool). Inv (if b then s' else do_send s') (total ++ ret)) (sym idle)
            (do_send-Inv s' (total ++ ret) f order)
    ]
push-Inv ret s total (broken f busy rest e) =
    let s' = record s { send_buffers = s.send_buffers ++ ret ∷ [] } in
    subst (λ (b : Bool). Inv (if b then s' else do_send s') (total ++ ret)) (sym busy)
      (broken f busy (rest ++ ret)
        (sym (append_assoc s.wire rest ret) ∙ ap (λ (t : Bytes). t ++ ret) e))

-- What was taken of the front buffer, and the rest of it with the other buffers.
cut_front :
    (n : ℕ) (w b : Bytes) (bs : List Bytes)
    → (w ++ take n b) ++ (drop n b ++ concat bs) ≡ w ++ (b ++ concat bs)
cut_front n w b bs =
    append_assoc w (take n b) (drop n b ++ concat bs)
    ∙ ap (◌++◌ w) (
        sym (append_assoc (take n b) (drop n b) (concat bs))
        ∙ ap (λ (t : Bytes). t ++ concat bs) (take-append-drop n b))

sent_on-Keeps :
    (sent_size : ℕ) (bs : List Bytes) (s : Replies) (total : Bytes)
    → s.failed ≡ false
    → Matches true bs
    → s.wire ++ concat bs ≡ total
    → Keeps (sent_on sent_size bs s) total
unfolding sent_on
sent_on-Keeps sent_size [] s total f h e = absurd h
sent_on-Keeps sent_size (b ∷ bs) s total f h e = elim (Bool-cases (ltb sent_size (length b))) [
  | inl part ↦
      let s' = record s {
        send_buffers = drop sent_size b ∷ bs;
        wire = s.wire ++ take sent_size b;
      } in
      record {
        after = do_send s';
        returns = rw part refl;
        inv = do_send-Inv s' total f (cut_front sent_size s.wire b bs ∙ e);
      }
  | inr whole ↦
      let s' = record s { send_buffers = bs; wire = s.wire ++ take sent_size b } in
      let all = take_all sent_size b (ltb→le sent_size (length b) whole) in
      record {
        after = do_send s';
        returns = rw whole refl;
        inv = do_send-Inv s' total f (
            append_assoc s.wire (take sent_size b) (concat bs)
            ∙ ap (λ (t : Bytes). s.wire ++ (t ++ concat bs)) all
            ∙ e);
      }
]

failed_on-Inv :
    (sent_size : ℕ) (bs : List Bytes) (s : Replies) (total : Bytes)
    → s.is_sending ≡ true
    → Matches true bs
    → s.wire ++ concat bs ≡ total
    → Inv (failed_on sent_size bs s) total
unfolding failed_on
failed_on-Inv sent_size [] s total busy h e = absurd h
failed_on-Inv sent_size (b ∷ bs) s total busy h e =
    broken refl busy (drop sent_size b ++ concat bs) (cut_front sent_size s.wire b bs ∙ e)

if-Keeps :
    (b : Bool) (x y : Result Replies) (total : Bytes)
    → (b ≡ true → Keeps x total)
    → (b ≡ false → Keeps y total)
    → Keeps (if b then x else y) total
if-Keeps true x y total h k = h refl
if-Keeps false x y total h k = k refl

stays : (s : Replies) (total : Bytes) → Inv s total → Keeps (ok s) total
stays s total inv = record { after = s; returns = refl; inv = inv }

on_sent-Keeps :
    (ec : Bool) (sent_size : ℕ) (s : Replies) (total : Bytes)
    → Inv s total
    → Keeps (on_sent ec sent_size s) total
unfolding on_sent
on_sent-Keeps ec sent_size s total (live f e m) =
    let sent = sent_on sent_size s.send_buffers s in
    let gone = failed_on sent_size s.send_buffers s in
    if-Keeps s.failed (ok s) (if s.is_sending then (if ec then ok gone else sent) else ok s) total
      (λ failed. stays s total (live f e m))
      (λ here.
        if-Keeps s.is_sending (if ec then ok gone else sent) (ok s) total
          (λ busy.
            let m' = subst (λ (b : Bool). Matches b s.send_buffers) busy m in
            if-Keeps ec (ok gone) sent total
              (λ bad. stays gone total (failed_on-Inv sent_size s.send_buffers s total busy m' e))
              (λ good. sent_on-Keeps sent_size s.send_buffers s total f m' e))
          (λ idle. stays s total (live f e m)))
on_sent-Keeps ec sent_size s total (broken f busy rest e) =
    let sent = sent_on sent_size s.send_buffers s in
    let gone = failed_on sent_size s.send_buffers s in
    record {
      after = s;
      returns =
          ap
            (λ (b : Bool).
              if b then ok s else if s.is_sending then (if ec then ok gone else sent) else ok s)
            f;
      inv = broken f busy rest e;
    }

-- What happens on a connection: a response, or the end of a write.
pub data Event : Type 0 where
  responds : Bytes → Event
  writes : Bool → ℕ → Event

unfoldable pub run : List Event → Replies → Result Replies
unfolding push on_sent
run [] s = ok s
run (responds r ∷ es) s = run es (push r s)
run (writes ec n ∷ es) s = on_sent ec n s >>= run es

abbrev pub responses : List Event → Bytes
responses [] = []
responses (responds r ∷ es) = r ++ responses es
responses (writes ec n ∷ es) = responses es

run-Keeps :
    (es : List Event) (s : Replies) (total : Bytes)
    → Inv s total
    → Keeps (run es s) (total ++ responses es)
unfolding run
run-Keeps [] s total inv = record {
  after = s;
  returns = refl;
  inv = subst (Inv s) (sym (append-nil total)) inv;
}
run-Keeps (responds r ∷ es) s total inv =
    let k = run-Keeps es (push r s) (total ++ r) (push-Inv r s total inv) in
    record {
      after = k.after;
      returns = k.returns;
      inv = subst (Inv k.after) (append_assoc total r (responses es)) k.inv;
    }
run-Keeps (writes ec n ∷ es) s total inv =
    let k = on_sent-Keeps ec n s total inv in
    let r = run-Keeps es k.after total k.inv in
    record {
      after = r.after;
      returns = ap (λ (x : Result Replies). x >>= run es) k.returns ∙ r.returns;
      inv = r.inv;
    }

abbrev pub new_replies : Replies
new_replies = record { send_buffers = []; is_sending = false; failed = false; wire = [] }

-- However responses come and writes end, in part, whole or in an error, no call takes the front of
-- an empty list. Until a write ends in an error, `m_IsSending` is set exactly while a response waits,
-- and the bytes that the socket took, with those that wait behind them, are the responses in their
-- order. Afterwards `m_IsSending` stays set, and the bytes that the socket took are a front of the
-- responses in their order.
pub run-Stream : (es : List Event) → Keeps (run es new_replies) (responses es)
run-Stream es = run-Keeps es new_replies [] (live refl refl tt)
