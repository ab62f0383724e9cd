-- ===== src/Handshake/StandIn.antt =====
-- A stand-in for the curve and the hash, for the examples.
use nicenet.Common.{ℕ, ◌≡◌, ◌≢◌, refl, sym, ap, ◌∙◌, arith, some, [], ◌∷◌, ◌++◌, Bytes, length}
use mathlib.Core.Option.{some-injective}
use nicenet.Common.Text.{bytes_eq}
use nicenet.Common.Table.{bytes_eq_iff}
use nicenet.Keys.{Server}
use nicenet.Handshake.{Crypto}
use nicenet.Handshake.Checks.{IsHash}
use nicenet.Handshake.Honest.{IsKeys}

abbrev pub eight : ℕ → Bytes
eight b = b ∷ b ∷ b ∷ b ∷ b ∷ b ∷ b ∷ b ∷ []

abbrev pub word32 : ℕ → Bytes
word32 b = eight b ++ (eight b ++ (eight b ++ eight b))

abbrev pub word64 : ℕ → Bytes
word64 b = word32 b ++ word32 b

-- a stand-in: every message has the same hash, a signature is the public key
abbrev pub crypto : Crypto
crypto = record {
  sha3 = λ m. word32 7;
  sign = λ key hash. some key;
  verify = λ key hash sign. bytes_eq key sign;
}

pub crypto-IsHash : IsHash crypto
crypto-IsHash = record { size = λ m. refl; bytes = λ m. ground arith }

abbrev pub server : Server
server = record { private_key = word64 1; public_key = word64 1 }

pub different : word64 2 ≢ word64 1
different p = ground (arith, bytes_eq_iff (word64 2) (word64 1), p)

-- Every key pair of the stand-in whose two keys are the same 64 bytes.
pub stand_in-IsKeys :
    (k : Bytes) → length k ≡ 64 → IsKeys crypto (record { private_key = k; public_key = k })
stand_in-IsKeys k e = record {
  size = e;
  sign_size = λ hash sign p. ap length (some-injective sign k (sym p)) ∙ e;
  verifies = λ hash sign p. (bytes_eq_iff k sign).1 (some-injective k sign p);
}
