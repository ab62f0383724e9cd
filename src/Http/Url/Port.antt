-- ===== src/Http/Url/Port.antt =====
-- The number that stands in a port's digits, and `uint16_t(atoi(...))` of them.
use nicenet.Common.{
  ℕ, ◌+◌, ◌-◌, ◌*◌, ◌%◌, ◌^◌, ◌<◌, ◌≡◌, refl, arith, false, some, [], ◌∷◌, All, Bytes,
}
use nicenet.Http.Chars.{is_digit, c_str}
use nicenet.Http.Numbers.{digit_of, scan, skip_space, take_sign, long_of, strtol_decimal}
use nicenet.Http.Url.Cases.{port_of}
use nicenet.Http.Url.Scan.{Digit}

-- A numeral in base ten, behind digits that are worth `n`; the code of the digit zero is 48.
abbrev pub decimal : ℕ → Bytes → ℕ
decimal n [] = n
decimal n (c ∷ cs) = decimal (n * 10 + (c - 48)) cs

c_str-digits : (cs : Bytes) → All Digit cs → c_str cs ≡ cs
unfolding c_str is_digit
c_str-digits [] h = refl
c_str-digits (c ∷ cs) h = ground (arith, h.0, c_str-digits cs h.1)

skip_space-digits : (cs : Bytes) → All Digit cs → skip_space cs ≡ cs
unfolding skip_space is_digit
skip_space-digits [] h = refl
skip_space-digits (c ∷ cs) h = ground (arith, h.0)

take_sign-digits : (cs : Bytes) → All Digit cs → take_sign cs ≡ (false, cs)
unfolding take_sign is_digit
take_sign-digits [] h = refl
take_sign-digits (c ∷ cs) h = ground (arith, h.0)

digit_of-digit : (c : ℕ) → Digit c → digit_of 10 c ≡ some (c - 48)
unfolding digit_of is_digit
digit_of-digit c h = ground arith

scan-decimal : (n : ℕ) (cs : Bytes) → All Digit cs → scan 10 n cs ≡ decimal n cs
unfolding scan
scan-decimal n [] h = refl
scan-decimal n (c ∷ cs) h =
    rw (digit_of-digit c h.0, scan) (scan-decimal (n * 10 + (c - 48)) cs h.1)

-- Of digits whose number is below 2 ^ 63, the number's last 16 bits.
pub port_of-decimal :
    (cs : Bytes) → All Digit cs → decimal 0 cs < 2 ^ 63 → port_of cs ≡ decimal 0 cs % 2 ^ 16
unfolding port_of strtol_decimal long_of
port_of-decimal cs h small = rw (c_str-digits cs h) (
    rw (skip_space-digits cs h)
      (rw (take_sign-digits cs h) (rw (scan-decimal 0 cs h) (omega arith))))
