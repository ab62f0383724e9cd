-- ===== src/Keys/Text.antt =====
-- The text form of a key and the loop that reads it.
use nicenet.Common.{
  ℕ, zero, suc, ◌+◌, ◌*◌, ◌/◌, ◌%◌, ◌≤◌, ◌<◌, ◌≡◌, refl, arith, Bool, true, false, Option, none,
  some, [], ◌∷◌, ltb, ◌||◌, if◌then◌else◌, length, All, Bytes, IsByte, Result, ok, ◌>>=◌, ap,
}
use nicenet.Keys.{get_0x_char_value, read_pairs, prepend, hex_digit, hex_of}

pub get_0x_char_value-hex_digit : (n : ℕ) → n < 16 → get_0x_char_value (hex_digit n) ≡ n
unfolding get_0x_char_value
get_0x_char_value-hex_digit n h = ground arith

pub length-hex_of : (ks : Bytes) → length (hex_of ks) ≡ 2 * length ks
unfolding hex_of
length-hex_of [] = refl
length-hex_of (k ∷ ks) = omega (arith, length-hex_of ks)

-- Reading what was printed.
pub read_pairs-hex_of :
    (ks : Bytes) → All IsByte ks → read_pairs (length ks) (hex_of ks) ≡ ok (some ks)
unfolding read_pairs hex_of
read_pairs-hex_of [] h = refl
read_pairs-hex_of (k ∷ ks) h =
    let small : k < 256 = h.0 in
    let low : k % 16 < 16 = omega arith in
    let high : k / 16 < 16 = omega arith in
    let whole : (k / 16 * 16 + k % 16) % 256 ≡ k = omega arith in
    rw (get_0x_char_value-hex_digit (k % 16) low) (
      rw (get_0x_char_value-hex_digit (k / 16) high)
        (ground (arith, whole, read_pairs-hex_of ks h.1)))

-- The loop returns when there is enough to read, with as many bytes as it was to read.
pub data Reads (n : ℕ) : Result (Option Bytes) → Type 0 where
  refused : Reads n (ok none)
  reads : (ks : Bytes) → length ks ≡ n → Reads n (ok (some ks))

prepend-Reads : (n k : ℕ) (r : Result (Option Bytes)) → Reads n r → Reads (suc n) (r >>= prepend k)
prepend-Reads n k _ refused = refused
prepend-Reads n k _ (reads ks e) = reads (k ∷ ks) (ap suc e)

if-Reads :
    (n : ℕ) (b : Bool) (r : Result (Option Bytes)) → Reads n r → Reads n (if b then ok none else r)
if-Reads n true r h = refused
if-Reads n false r h = h

pub read_pairs-Reads : (n : ℕ) (s : Bytes) → 2 * n ≤ length s → Reads n (read_pairs n s)
unfolding read_pairs
read_pairs-Reads zero s h = reads [] refl
read_pairs-Reads (suc n) [] h = absurd (omega (arith, h))
read_pairs-Reads (suc n) (b ∷ []) h = absurd (omega (arith, h))
read_pairs-Reads (suc n) (b ∷ a ∷ s) h =
    if-Reads (suc n) (ltb 15 (get_0x_char_value a) || ltb 15 (get_0x_char_value b))
      (read_pairs n s >>= prepend ((get_0x_char_value b * 16 + get_0x_char_value a) % 256))
      (prepend-Reads n ((get_0x_char_value b * 16 + get_0x_char_value a) % 256) (read_pairs n s)
        (read_pairs-Reads n s (omega arith)))
