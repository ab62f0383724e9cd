-- ===== src/Integers/Ledger.antt =====
-- A balance under any sequence of checked operations.
use nicenet.Common.{ℕ, ◌+◌, ◌^◌, ◌<◌, ◌≡◌, arith, Bool, true, false, List, [], ◌∷◌, All}
use nicenet.Integers.{StoreUint, store, add, minus}

pub data Call : Type 0 where
  adds minuses : ℕ → Call

-- The balance after the calls, with the sums of the amounts for which `add` and for which `minus`
-- returned true.
pub record Tally : Type 0 where
  pub balance : StoreUint
  pub gained : ℕ
  pub spent : ℕ

abbrev counted : Bool → ℕ → ℕ
counted true n = n
counted false n = 0

unfoldable pub call : Call → Tally → Tally
unfolding add minus
call (adds n) t =
    let (s, done) = add t.balance n in record t { balance = s; gained = t.gained + counted done n }
call (minuses n) t =
    let (s, done) = minus t.balance n in record t { balance = s; spent = t.spent + counted done n }

unfoldable pub run : List Call → Tally → Tally
run [] t = t
run (c ∷ cs) t = run cs (call c t)

abbrev pub IsUint64 : Call → Type 0
IsUint64 (adds n) = n < 2 ^ 64
IsUint64 (minuses n) = n < 2 ^ 64

abbrev pub IsBalanced : ℕ → Tally → Type 0
IsBalanced a t = (t.balance.impl + t.spent ≡ a + t.gained) × (t.balance.impl < 2 ^ 64)

call-IsBalanced :
    (a : ℕ) (c : Call) (t : Tally) → IsUint64 c → IsBalanced a t → IsBalanced a (call c t)
unfolding call
call-IsBalanced a (adds n) t h (e, lt) = ground arith
call-IsBalanced a (minuses n) t h (e, lt) = ground arith

run-IsBalanced :
    (a : ℕ) (cs : List Call) (t : Tally)
    → All IsUint64 cs
    → IsBalanced a t
    → IsBalanced a (run cs t)
unfolding run
run-IsBalanced a [] t hs h = h
run-IsBalanced a (c ∷ cs) t hs h =
    run-IsBalanced a cs (call c t) hs.1 (call-IsBalanced a c t hs.0 h)

-- No sequence of `add` and `minus` makes or loses anything: the balance and what was taken off
-- are the first balance and what was put on, and the balance stays below 2 ^ 64.
pub run_conserves :
    (a : ℕ) (cs : List Call)
    → a < 2 ^ 64
    → All IsUint64 cs
    → IsBalanced a (run cs (record { balance = store a; gained = 0; spent = 0 }))
run_conserves a cs h hs =
    run-IsBalanced a cs (record { balance = store a; gained = 0; spent = 0 }) hs (omega arith)
