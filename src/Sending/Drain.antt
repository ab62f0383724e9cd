-- ===== src/Sending/Drain.antt =====
-- Writes that all end well, one after another.
use nicenet.Common.{
  ℕ, zero, suc, ◌≤◌, ◌≡◌, refl, sym, ap, subst, ◌∙◌, arith, Bool, false, Option, none, some, List,
  [], ◌∷◌, ◌++◌, append-nil, le→ltb, Bytes, Result, ok, ◌>>=◌, inl, inr, ◌⊎◌,
}
use nicenet.Message.{Message}
use nicenet.Sending.{Sender, Write, gathered, of_front, size_of, on_written}
use nicenet.Sending.Steps.{waiting, Agrees, Live, Inv, Inv-Live, pending}
use nicenet.Sending.Calls.{on_written_well, written_well}

-- at most `n` ends of a write, each without an error and of its whole size
unfoldable pub complete_all : ℕ → Sender → Result Sender
unfolding on_written
complete_all zero s = ok s
complete_all (suc n) s = elim (s.writing) [
  | none ↦ ok s
  | some w ↦ on_written false (size_of w) s >>= complete_all n
]

-- All that was queued is written, and nothing is left.
pub record Drained (r : Result Sender) (total : Bytes) : Type 0 where
  pub after : Sender
  pub returns : r ≡ ok after
  pub idle : after.is_sending ≡ false
  pub empty : after.send_list ≡ []
  pub all : after.written ≡ total

idle-Drained :
    (s : Sender) (total : Bytes) (r : Result Sender)
    → r ≡ ok s
    → s.writing ≡ none
    → Live s total
    → Drained r total
idle-Drained s total r returns e inv =
    let (idle, empty) =
      subst (λ (o : Option Write). Agrees o s.is_sending s.send_list) e inv.agrees in
    record {
      after = s;
      returns = returns;
      idle = idle;
      empty = empty;
      all =
          sym (append-nil s.written)
          ∙ ap (λ (ms : List Message). s.written ++ waiting none ms) (sym empty)
          ∙ ap (λ (o : Option Write). s.written ++ waiting o s.send_list) (sym e)
          ∙ inv.in_order;
    }

complete_none : (n : ℕ) (s : Sender) → s.writing ≡ none → complete_all n s ≡ ok s
unfolding complete_all
complete_none zero s e = refl
complete_none (suc n) s e =
    ap
      (λ (o : Option Write). elim o [
        | none ↦ ok s
        | some v ↦ on_written false (size_of v) s >>= complete_all n
      ])
      e

complete_some :
    (n : ℕ) (w : Write) (s : Sender)
    → s.writing ≡ some w
    → complete_all (suc n) s ≡ (on_written false (size_of w) s >>= complete_all n)
unfolding complete_all
complete_some n w s e =
    ap
      (λ (o : Option Write). elim o [
        | none ↦ ok s
        | some v ↦ on_written false (size_of v) s >>= complete_all n
      ])
      e

none-pending :
    (w : Option Write) (b : Bool) (ms : List Message) → Agrees w b ms → pending w ms ≤ 0 → w ≡ none
none-pending none b ms a h = refl
none-pending (some (gathered n)) b ms a h = absurd (omega (arith, h))
none-pending (some (of_front n)) b [] a h = absurd a
none-pending (some (of_front n)) b (m ∷ ms) a h = absurd (omega (arith, h))

write_cases : (o : Option Write) → (o ≡ none) ⊎ ((w : Write) × (o ≡ some w))
write_cases none = inl refl
write_cases (some w) = inr (w, refl)

drain_step :
    (n : ℕ) (w : Write) (s : Sender) (total : Bytes)
    → ((s' : Sender)
        → Live s' total
        → s'.removed ≡ false
        → pending s'.writing s'.send_list ≤ n
        → Drained (complete_all n s') total)
    → Live s total
    → s.removed ≡ false
    → pending s.writing s.send_list ≤ suc n
    → s.writing ≡ some w
    → Drained (complete_all (suc n) s) total
drain_step n w s total rest inv here h e =
    let (r, fewer) = written_well w s total e inv in
    let before : pending s.writing s.send_list ≡ pending (some w) s.send_list =
      ap (λ (o : Option Write). pending o s.send_list) e in
    let d = rest r.after r.inv (r.kept ∙ here) (omega (arith, fewer, before, h)) in
    record {
      after = d.after;
      returns =
          complete_some n w s e
          ∙ ap (λ (x : Result Sender). x >>= complete_all n)
              (on_written_well w false (size_of w) s e
                  (le→ltb (size_of w) (size_of w) (omega arith))
                ∙ r.returns)
          ∙ d.returns;
      idle = d.idle;
      empty = d.empty;
      all = d.all;
    }

complete_within :
    (n : ℕ) (s : Sender) (total : Bytes)
    → Live s total
    → s.removed ≡ false
    → pending s.writing s.send_list ≤ n
    → Drained (complete_all n s) total
complete_within zero s total inv here h =
    let e = none-pending s.writing s.is_sending s.send_list inv.agrees h in
    idle-Drained s total (complete_all 0 s) (complete_none 0 s e) e inv
complete_within (suc n) s total inv here h = elim (write_cases s.writing) [
  | inl e ↦ idle-Drained s total (complete_all (suc n) s) (complete_none (suc n) s e) e inv
  | inr (w, e) ↦ drain_step n w s total (λ s'. complete_within n s' total) inv here h e
]

-- As many ends of a write as `pending` counts are enough: from a session in order that was not
-- removed they leave no message and no write behind, and everything that was queued was written.
pub complete_all-Drained :
    (n : ℕ) (s : Sender) (total : Bytes)
    → Inv s total
    → s.removed ≡ false
    → pending s.writing s.send_list ≤ n
    → Drained (complete_all n s) total
complete_all-Drained n s total inv here h =
    complete_within n s total (Inv-Live s total inv here) here h
