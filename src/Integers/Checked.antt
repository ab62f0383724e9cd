-- ===== src/Integers/Checked.antt =====
-- `StoreUInt::add` on two 64-bit numbers.
use nicenet.Common.{ℕ, ◌+◌, ◌^◌, ◌≤◌, ◌<◌, ◌≡◌, ◌⊎◌, arith, true, false}
use nicenet.Integers.{store, add}

-- On 64-bit operands `add` returns true and stores the sum where that is below 2 ^ 64; otherwise
-- it returns false and leaves the balance.
pub add_lem :
    (a b : ℕ)
    → a < 2 ^ 64
    → b < 2 ^ 64
    → ((a + b < 2 ^ 64) × (add (store a) b ≡ (store (a + b), true)))
      ⊎ ((2 ^ 64 ≤ a + b) × (add (store a) b ≡ (store a, false)))
unfolding add
add_lem a b h k = ground arith
