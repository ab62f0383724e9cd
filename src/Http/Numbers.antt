-- ===== src/Http/Numbers.antt =====
-- `atoi` and `strtol(s, NULL, 16)` of the C library. A `long` has 64 bits, and `atoi` is the low
-- 32 bits of `strtol(s, NULL, 10)`, as glibc has it (the standard leaves a larger number
-- undefined).
use nicenet.Common.{
  ℕ, ◌+◌, ◌-◌, ◌*◌, ◌%◌, ◌^◌, Bool, true, false, Option, none, some, ◌&&◌, ◌||◌, ltb, ◌==◌,
  if◌then◌else◌, Bytes, [], ◌∷◌, min,
}
use nicenet.Http.Chars.{within}

unfoldable pub digit_of : ℕ → ℕ → Option ℕ
digit_of base c =
    if within b'0' b'9' c
    then (if ltb (c - b'0') base then some (c - b'0') else none)
    else if within b'a' b'z' c
    then (if ltb (c - b'a' + 10) base then some (c - b'a' + 10) else none)
    else if within b'A' b'Z' c
    then (if ltb (c - b'A' + 10) base then some (c - b'A' + 10) else none)
    else none

-- the digits up to the first character that is none
unfoldable pub scan : ℕ → ℕ → Bytes → ℕ
unfolding digit_of
scan base acc [] = acc
scan base acc (c ∷ cs) = elim (digit_of base c) [
  | none ↦ acc
  | some d ↦ scan base (acc * base + d) cs
]

unfoldable pub skip_space : Bytes → Bytes
skip_space [] = []
skip_space (c ∷ cs) =
    let rest = skip_space cs in if c == b' ' || within 9 13 c then rest else c ∷ cs

unfoldable pub take_sign : Bytes → Bool × Bytes
take_sign [] = (false, [])
take_sign (c ∷ cs) =
    if c == b'-' then (true, cs) else if c == b'+' then (false, cs) else (false, c ∷ cs)

-- an optional 0x, which counts only in front of a digit
unfoldable pub skip_prefix : Bytes → Bytes
unfolding digit_of
skip_prefix (z ∷ x ∷ d ∷ cs) = elim (digit_of 16 d) [
  | none ↦ z ∷ x ∷ d ∷ cs
  | some _ ↦ if z == b'0' && (x == b'x' || x == b'X') then d ∷ cs else z ∷ x ∷ d ∷ cs
]
skip_prefix cs = cs

-- a `long` as its 64 bits, from the sign and the size of the number that was read
unfoldable pub long_of : Bool → ℕ → ℕ
long_of false n = min n (2 ^ 63 - 1)
long_of true n = (2 ^ 64 - min n (2 ^ 63)) % 2 ^ 64

unfoldable pub strtol_decimal : Bytes → ℕ
unfolding skip_space take_sign scan long_of
strtol_decimal s = let (neg, digits) = take_sign (skip_space s) in long_of neg (scan 10 0 digits)

unfoldable pub strtol_hex : Bytes → ℕ
unfolding skip_space take_sign skip_prefix scan long_of
strtol_hex s =
    let (neg, digits) = take_sign (skip_space s) in long_of neg (scan 16 0 (skip_prefix digits))

-- `size_t(atoi(s))`: the 32 bits of the int, with their sign carried on
unfoldable pub size_of_atoi : Bytes → ℕ
unfolding strtol_decimal
size_of_atoi s =
    let w = strtol_decimal s % 2 ^ 32 in if ltb w (2 ^ 31) then w else w + (2 ^ 64 - 2 ^ 32)
