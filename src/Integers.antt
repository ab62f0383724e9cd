-- ===== src/Integers.antt =====
-- Type.h: `StoreUInt`, a 64-bit balance whose additions and subtractions are checked, and
-- `OperUInt`, the 32-bit amounts that one computes with. A call of a member that changes the
-- object returns the new object and the call's result.
pub mod Checked
pub mod Ledger
mod Examples
use nicenet.Common.{
  ℕ, ◌+◌, ◌-◌, ◌*◌, ◌/◌, ◌%◌, ◌^◌, Bool, true, false, ◌||◌, ltb, ◌==◌, if◌then◌else◌, Result, ok,
  fault, division_by_zero,
}

pub record StoreUint : Type 0 where
  pub impl : ℕ

pub record OperUint : Type 0 where
  pub impl : ℕ

abbrev pub oper_uint_base_max : ℕ
oper_uint_base_max = 2 ^ 32 - 1

abbrev pub store : ℕ → StoreUint
store n = record { impl = n }

abbrev pub oper : ℕ → OperUint
oper n = record { impl = n }

unfoldable pub add : StoreUint → ℕ → StoreUint × Bool
add s other =
    let ret = (s.impl + other) % 2 ^ 64 in
    if ltb ret s.impl || ltb ret other then (s, false) else (store ret, true)

unfoldable pub minus : StoreUint → ℕ → StoreUint × Bool
minus s other = if ltb s.impl other then (s, false) else (store (s.impl - other), true)

-- `add(OperUInt)`, through `add(oper_uint_base)`
unfoldable pub add_oper : StoreUint → OperUint → StoreUint × Bool
unfolding add
add_oper s other = add s other.impl

-- `minus(OperUInt)`, through `minus(oper_uint_base)`
unfoldable pub minus_oper : StoreUint → OperUint → StoreUint × Bool
unfolding minus
minus_oper s other = minus s other.impl

unfoldable pub to_oper : StoreUint → Bool × OperUint
to_oper s =
    if ltb oper_uint_base_max s.impl then (false, oper 0) else (true, oper (s.impl % 2 ^ 32))

-- `operator+`, `operator*`, `operator/` and `operator%` of `OperUInt`
unfoldable pub plus : OperUint → OperUint → StoreUint
plus a b = store ((a.impl + b.impl) % 2 ^ 64)

unfoldable pub times : OperUint → OperUint → StoreUint
times a b = store ((a.impl * b.impl) % 2 ^ 64)

unfoldable pub divide : OperUint → OperUint → Result StoreUint
divide a b = if b.impl == 0 then fault division_by_zero else ok (store (a.impl / b.impl))

unfoldable pub remainder : OperUint → OperUint → Result StoreUint
remainder a b = if b.impl == 0 then fault division_by_zero else ok (store (a.impl % b.impl))
