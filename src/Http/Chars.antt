-- ===== src/Http/Chars.antt =====
-- The character tests of the parsers. A `char` is its byte; converted to `int` a byte from 128 on
-- is negative where `char` is signed, and above 127 where it is not: every test below answers
-- the same for both.
use nicenet.Common.{ℕ, Bool, ◌&&◌, ◌||◌, not, leb, ◌==◌, Bytes, [], ◌∷◌, if◌then◌else◌}

abbrev pub within : ℕ → ℕ → ℕ → Bool
within lo hi c = leb lo c && leb c hi

unfoldable pub is_char : ℕ → Bool
is_char c = leb c 127

unfoldable pub is_control : ℕ → Bool
is_control c = leb c 31 || c == 127

unfoldable pub is_special : ℕ → Bool
is_special c =
    c == b'('
    || c == b')'
    || c == b'<'
    || c == b'>'
    || c == b'@'
    || c == b','
    || c == b';'
    || c == b':'
    || c == b'\\'
    || c == b'"'
    || c == b'/'
    || c == b'['
    || c == b']'
    || c == b'?'
    || c == b'='
    || c == b'{'
    || c == b'}'
    || c == b' '
    || c == b'\t'

unfoldable pub is_digit : ℕ → Bool
is_digit c = within b'0' b'9' c

-- the test that guards methods and header names in the parsers
unfoldable pub is_token : ℕ → Bool
unfolding is_char is_control is_special
is_token c = not (not (is_char c) || is_control c || is_special c)

-- `isalpha`, `isdigit` and `isalnum` of the C library, in its "C" locale
unfoldable pub is_alpha : ℕ → Bool
is_alpha c = within b'a' b'z' c || within b'A' b'Z' c

unfoldable pub is_alnum : ℕ → Bool
unfolding is_alpha
is_alnum c = is_alpha c || within b'0' b'9' c

-- what `c_str()` gives to a function that makes a string of it again
unfoldable pub c_str : Bytes → Bytes
c_str [] = []
c_str (x ∷ xs) = if x == 0 then [] else x ∷ c_str xs
