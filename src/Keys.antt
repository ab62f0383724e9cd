-- ===== src/Keys.antt =====
-- Server.cpp: the key pair of a `Server` and its text form. The curve's functions are micro-ecc's:
-- `uECC_compute_public_key` is the parameter `compute_public_key`, which returns none for a
-- private key that the curve refuses.
pub mod Text
pub mod Set
mod Examples
use nicenet.Common.{
  ℕ, zero, suc, ◌+◌, ◌-◌, ◌*◌, ◌/◌, ◌%◌, Bool, true, false, ◌&&◌, ◌||◌, Option, none, some, List,
  [], ◌∷◌, ◌++◌, ltb, leb, ◌==◌, if◌then◌else◌, length, drop, Bytes, Result, ok, fault,
  out_of_bounds, ◌>>=◌,
}
use nicenet.Common.Text.{codes}

pub record Server : Type 0 where
  pub private_key : Bytes
  pub public_key : Bytes

abbrev pub private_key_size : ℕ
private_key_size = 32

unfoldable pub get_0x_char_value : ℕ → ℕ
get_0x_char_value c =
    if c == 48
    then 0
    else if leb 49 c && leb c 57
    then 1 + (c - 49)
    else if leb 97 c && leb c 102
    then 10 + (c - 97)
    else if leb 65 c && leb c 70
    then 10 + (c - 65)
    else 255

abbrev pub prepend : ℕ → Option Bytes → Result (Option Bytes)
prepend k none = ok none
prepend k (some ks) = ok (some (k ∷ ks))

-- The loop over the bytes of the private key: `n` of them are still to be read at `s`. None
-- means `return false`.
unfoldable pub read_pairs : ℕ → Bytes → Result (Option Bytes)
unfolding get_0x_char_value
read_pairs zero s = ok (some [])
read_pairs (suc n) [] = fault out_of_bounds
read_pairs (suc n) (b ∷ []) = fault out_of_bounds
read_pairs (suc n) (b ∷ a ∷ s) =
    let rest = read_pairs n s in
    let low = get_0x_char_value a in
    let high = get_0x_char_value b in
    if ltb 15 low || ltb 15 high then ok none else rest >>= prepend ((high * 16 + low) % 256)

abbrev pub at_least : ℕ → Bytes → Bytes → Option Bytes
at_least n s digits = if ltb (length s) n then none else some digits

-- the characters at which the loop starts; none means `return false`
unfoldable pub digits_of : Bytes → Option Bytes
digits_of [] = at_least 64 [] []
digits_of (c ∷ []) = at_least 64 (c ∷ []) (c ∷ [])
digits_of (c ∷ d ∷ ds) =
    if c == 48 && d == 120
    then at_least 66 (c ∷ d ∷ ds) ds
    else at_least 64 (c ∷ d ∷ ds) (c ∷ d ∷ ds)

-- What `SetPrivateKeyString` does with the key that was read.
unfoldable pub use_key : (Bytes → Option Bytes) → Option Bytes → Server → Bool × Server
use_key compute_public_key none server = (false, server)
use_key compute_public_key (some key) server = elim (compute_public_key key) [
  | none ↦ (false, server)
  | some public ↦ (true, record { private_key = key; public_key = public })
]

unfoldable pub from_digits : (Bytes → Option Bytes) → Server → Option Bytes → Result (Bool × Server)
unfolding read_pairs use_key
from_digits compute_public_key server none = ok (false, server)
from_digits compute_public_key server (some digits) = do
  key ← read_pairs private_key_size digits
  ok (use_key compute_public_key key server)

-- `SetPrivateKeyString`: its result, and the server after it
unfoldable pub set_private_key_string :
    (Bytes → Option Bytes) → Bytes → Server → Result (Bool × Server)
unfolding digits_of from_digits
set_private_key_string compute_public_key s server =
    from_digits compute_public_key server (digits_of s)

abbrev pub hex_digit : ℕ → ℕ
hex_digit n = if ltb n 10 then 48 + n else 87 + n

-- snprintf of each byte by "%02x"
unfoldable pub hex_of : Bytes → Bytes
hex_of [] = []
hex_of (k ∷ ks) = hex_digit (k / 16) ∷ hex_digit (k % 16) ∷ hex_of ks

unfoldable pub get_private_key_string : Server → Bytes
unfolding hex_of
get_private_key_string server = codes "0x" ++ hex_of server.private_key

unfoldable pub get_public_key_string : Server → Bytes
unfolding hex_of
get_public_key_string server = codes "0x" ++ hex_of server.public_key
