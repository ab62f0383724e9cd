-- ===== src/Common/Words.antt =====
-- Bytes, and the little-endian layout of machine words (`start` in Service.cpp refuses to run on
-- a machine of the other order).
use Prim.Native.Nat.{ℕ, zero, suc, ◌+◌, ◌*◌, ◌/◌, ◌%◌, ◌^◌, ◌<◌}
use mathlib.Core.Path.{◌≡◌, refl, ap}
use mathlib.Core.List.{List, [], ◌∷◌}
use native.Mathlib.Nat.{pow-suc}
use native.Mathlib.Omega.{arith}
use nicenet.Common.Lists.{length, All}

abbrev pub Bytes : Type 0
Bytes = List ℕ

abbrev pub IsByte : ℕ → Type 0
IsByte b = b < 256

-- The `k` low bytes of `n`, lowest first.
abbrev pub le_bytes : ℕ → ℕ → Bytes
le_bytes zero n = []
le_bytes (suc k) n = (n % 256) ∷ le_bytes k (n / 256)

abbrev pub of_le : Bytes → ℕ
of_le [] = 0
of_le (b ∷ bs) = b + 256 * of_le bs

pub length-le_bytes : (k n : ℕ) → length (le_bytes k n) ≡ k
length-le_bytes zero n = refl
length-le_bytes (suc k) n = ap suc (length-le_bytes k (n / 256))

pub le_bytes-IsByte : (k n : ℕ) → All IsByte (le_bytes k n)
le_bytes-IsByte zero n = tt
le_bytes-IsByte (suc k) n = (omega arith, le_bytes-IsByte k (n / 256))

pub of_le-le_bytes : (k n : ℕ) → n < 256 ^ k → of_le (le_bytes k n) ≡ n
of_le-le_bytes zero n h = omega arith
of_le-le_bytes (suc k) n h = omega (arith, of_le-le_bytes k (n / 256) (smaller k n h))
  where
    smaller : (k n : ℕ) → n < 256 ^ suc k → n / 256 < 256 ^ k
    smaller k n h = let e = pow-suc 256 k in omega arith

pub le_bytes-of_le : (bs : Bytes) → All IsByte bs → le_bytes (length bs) (of_le bs) ≡ bs
le_bytes-of_le [] h = refl
le_bytes-of_le (b ∷ bs) h = ground (
  arith,
  (let e : (b + 256 * of_le bs) % 256 ≡ b = omega arith in e),
  (let e : (b + 256 * of_le bs) / 256 ≡ of_le bs = omega arith in e),
  le_bytes-of_le bs h.1,
)

pub of_le-lt : (bs : Bytes) → All IsByte bs → of_le bs < 256 ^ length bs
of_le-lt [] h = omega arith
of_le-lt (b ∷ bs) h = let e = pow-suc 256 (length bs) in omega (arith, of_le-lt bs h.1)
