-- ===== src/Common/Outcome.antt =====
-- Results of code that can do what C++ leaves undefined, or throw: such an act is a value.
use mathlib.Core.Option.{Option, none, some}

pub data Fault : Type 0 where
  -- a member called through a null pointer
  null_dereference : Fault
  -- a read or write outside an allocated block
  out_of_bounds : Fault
  -- `std::vector::reserve` beyond `max_size`
  length_error : Fault
  -- `back()` of an empty vector
  empty_back : Fault
  -- `/` or `%` by 0
  division_by_zero : Fault

pub data Result {ℓ} (A : Type ℓ) : Type ℓ where
  ok : A → Result A
  fault : Fault → Result A

infixl 5 ◌>>=◌
abbrev pub ◌>>=◌ {ℓ κ} : {A : Type ℓ} {B : Type κ} → Result A → (A → Result B) → Result B
ok a >>= f = f a
fault e >>= f = fault e

abbrev pub to_option {ℓ} : {A : Type ℓ} → Result A → Option A
to_option (ok a) = some a
to_option (fault e) = none
