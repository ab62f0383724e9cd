-- ===== src/Integers/Examples.antt =====
-- The theorems on checked integers near the end of their range.
use nicenet.Common.{arith, [], ◌∷◌}
use nicenet.Integers.{store}
use nicenet.Integers.Ledger.{adds, minuses, run, IsBalanced, run_conserves}

run_conserves_example : IsBalanced 10 (
    run
      (adds 5 ∷ minuses 20 ∷ minuses 3 ∷ [])
      (record { balance = store 10; gained = 0; spent = 0 }))
run_conserves_example =
    run_conserves 10 (adds 5 ∷ minuses 20 ∷ minuses 3 ∷ []) (omega arith) (omega arith)
