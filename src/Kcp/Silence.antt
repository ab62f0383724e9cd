-- ===== src/Kcp/Silence.antt =====
-- A peer that sends nothing.
use nicenet.Common.{
  ℕ, ◌+◌, ◌<◌, ◌≡◌, ◌⊎◌, inl, inr, refl, ap, ◌∙◌, arith, Bool, true, false, List, [], ◌∷◌, ltb,
  ltb→lt, ltb→le, Bool-cases, ◌==◌, if◌then◌else◌,
}
use nicenet.Kcp.{Peer, Reading, reads, breaks, runs_on, first_pong, read_all, do_read}

-- the session after a read at each of the times, none of which finds anything
unfoldable pub wait_at : (ℕ → ℕ) → ℕ → List ℕ → Peer → Reading
unfolding do_read
wait_at garbage fuel [] p = reads p
wait_at garbage fuel (now ∷ nows) p = elim (do_read garbage fuel true now [] p) [
  | reads p' ↦ wait_at garbage fuel nows p'
  | breaks e ↦ breaks e
  | runs_on ↦ runs_on
]

-- One of the times is more than five seconds after `t`.
abbrev pub Overdue : ℕ → List ℕ → Type 0
Overdue t [] = ⊥
Overdue t (now ∷ nows) = (t + 5 < now) ⊎ Overdue t nows

abbrev gone : Peer → Peer
gone p = record p { wait_remove = true }

wait_on : (ℕ → ℕ) → ℕ → List ℕ → Reading → Reading
unfolding wait_at
wait_on garbage fuel nows (reads p) = wait_at garbage fuel nows p
wait_on garbage fuel nows (breaks e) = breaks e
wait_on garbage fuel nows runs_on = runs_on

wait_at_on :
    (garbage : ℕ → ℕ) (fuel now : ℕ) (nows : List ℕ) (p : Peer) (r : Reading)
    → do_read garbage fuel true now [] p ≡ r
    → wait_at garbage fuel (now ∷ nows) p ≡ wait_on garbage fuel nows r
unfolding wait_at wait_on
wait_at_on garbage fuel now nows p (reads q) e = rw (wait_at, e) refl
wait_at_on garbage fuel now nows p (breaks f) e = rw (wait_at, e) refl
wait_at_on garbage fuel now nows p runs_on e = rw (wait_at, e) refl

one_read :
    (garbage : ℕ → ℕ) (fuel now : ℕ) (p : Peer)
    → p.wait_remove ≡ false
    → 0 < p.last_pong_time
    → do_read garbage fuel true now [] p
      ≡ (if ltb (p.last_pong_time + 5) now then reads (gone p) else reads p)
unfolding do_read read_all first_pong
one_read garbage fuel now p here started =
    let set : (p.last_pong_time == 0) ≡ false = ground arith in
    ap (λ (b : Bool). if b then reads p else read_all garbage fuel now [] (first_pong now p)) here
    ∙ ap
        (λ (b : Bool).
          read_all garbage fuel now [] (if b then record p { last_pong_time = now } else p))
        set

gone_stays :
    (garbage : ℕ → ℕ) (fuel : ℕ) (nows : List ℕ) (p : Peer)
    → wait_at garbage fuel nows (gone p) ≡ reads (gone p)
unfolding wait_at do_read
gone_stays garbage fuel [] p = refl
gone_stays garbage fuel (now ∷ nows) p = gone_stays garbage fuel nows p

-- A session that has been heard of once and from which nothing comes any more is removed exactly
-- if one of the reads is more than five seconds after that, and else stays as it is.
pub silence_lem :
    (garbage : ℕ → ℕ) (fuel : ℕ) (nows : List ℕ) (p : Peer)
    → p.wait_remove ≡ false
    → 0 < p.last_pong_time
    → (Overdue p.last_pong_time nows × (wait_at garbage fuel nows p ≡ reads (gone p)))
      ⊎ ((Overdue p.last_pong_time nows → ⊥) × (wait_at garbage fuel nows p ≡ reads p))
unfolding wait_at wait_on
silence_lem garbage fuel [] p here started = inr (λ o. o, refl)
silence_lem garbage fuel (now ∷ nows) p here started =
    let read = one_read garbage fuel now p here started in
    let next = λ (b : Bool). if b then reads (gone p) else reads p in
    elim (Bool-cases (ltb (p.last_pong_time + 5) now)) [
      | inl late ↦ inl (
        inl (ltb→lt (p.last_pong_time + 5) now late),
        wait_at_on garbage fuel now nows p (reads (gone p)) (read ∙ ap next late)
            ∙ gone_stays garbage fuel nows p,
      )
      | inr early ↦ elim (silence_lem garbage fuel nows p here started) [
        | inl (o, e) ↦
            inl (inr o, wait_at_on garbage fuel now nows p (reads p) (read ∙ ap next early) ∙ e)
        | inr (never, e) ↦ inr (
          λ o. elim o [
            | inl l ↦ absurd (omega (arith, l, ltb→le (p.last_pong_time + 5) now early))
            | inr r ↦ never r
          ],
          wait_at_on garbage fuel now nows p (reads p) (read ∙ ap next early) ∙ e,
        )
      ]
    ]
