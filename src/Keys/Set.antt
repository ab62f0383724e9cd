-- ===== src/Keys/Set.antt =====
-- `SetPrivateKeyString` on what `GetPrivateKeyString` returns, and on any string.
use nicenet.Common.{
  ℕ, suc, ◌*◌, ◌≤◌, ◌≡◌, refl, arith, Bool, true, false, Option, none, some, [], ◌∷◌, ◌++◌, ltb,
  le→ltb, ltb→le, ◌==◌, ◌&&◌, if◌then◌else◌, length, All, Bytes, IsByte, Result, ok, ◌>>=◌, ap, sym,
  ◌∙◌,
}
use nicenet.Common.Text.{codes}
use nicenet.Keys.{
  Server, digits_of, from_digits, read_pairs, use_key, set_private_key_string,
  get_private_key_string, hex_of,
}
use nicenet.Keys.Text.{length-hex_of, read_pairs-hex_of, Reads, refused, reads, read_pairs-Reads}

-- A key pair: a private key of its size, whose public key the server has.
pub record IsKeyPair (compute_public_key : Bytes → Option Bytes) (server : Server) : Type 0 where
  pub size : length server.private_key ≡ 32
  pub bytes : All IsByte server.private_key
  pub matches : compute_public_key server.private_key ≡ some server.public_key

digits_of-prefix : (ds : Bytes) → 64 ≤ length ds → digits_of (codes "0x" ++ ds) ≡ some ds
unfolding digits_of
digits_of-prefix ds h = rw (le→ltb (suc (suc (length ds))) 66 (omega arith)) refl

use_key_lem :
    (compute_public_key : Bytes → Option Bytes) (key public : Bytes) (other : Server)
    → compute_public_key key ≡ some public
    → use_key compute_public_key (some key) other
      ≡ (true, record { private_key = key; public_key = public })
unfolding use_key
use_key_lem compute_public_key key public other p =
    ap
      (λ (o : Option Bytes). elim o as (λ (x : Option Bytes). Bool × Server) [
        | none ↦ (false, other)
        | some k ↦ (true, record { private_key = key; public_key = k })
      ])
      p

-- The private key that one server prints, another server takes over: it has then the same key
-- pair, whatever it had before.
pub set-get_private_key_string :
    (compute_public_key : Bytes → Option Bytes) (server other : Server)
    → IsKeyPair compute_public_key server
    → set_private_key_string compute_public_key (get_private_key_string server) other
      ≡ ok (true, server)
unfolding set_private_key_string from_digits get_private_key_string
set-get_private_key_string compute_public_key server other h =
    let key = server.private_key in
    let sized : length (hex_of key) ≡ 64 = length-hex_of key ∙ ap (λ (n : ℕ). 2 * n) h.size in
    let read : read_pairs 32 (hex_of key) ≡ ok (some key) =
      ap (λ (n : ℕ). read_pairs n (hex_of key)) (sym h.size) ∙ read_pairs-hex_of key h.bytes in
    ap (from_digits compute_public_key other) (digits_of-prefix (hex_of key) (omega arith))
    ∙ ap (λ (r : Result (Option Bytes)). r >>= λ k. ok (use_key compute_public_key k other)) read
    ∙ ap (λ (x : Bool × Server). ok x)
        (use_key_lem compute_public_key key server.public_key other h.matches)

-- What a call of `SetPrivateKeyString` may come to.
pub data Sets (compute_public_key : Bytes → Option Bytes) (before : Server)
    : Result (Bool × Server) → Type 0 where
  keeps : Sets compute_public_key before (ok (false, before))
  changes :
      (after : Server)
      → length after.private_key ≡ 32
      → compute_public_key after.private_key ≡ some after.public_key
      → Sets compute_public_key before (ok (true, after))

use_key-Sets :
    (compute_public_key : Bytes → Option Bytes) (server : Server) (r : Result (Option Bytes))
    → Reads 32 r
    → Sets compute_public_key server (r >>= λ key. ok (use_key compute_public_key key server))
unfolding use_key
use_key-Sets compute_public_key server _ refused = keeps
use_key-Sets compute_public_key server _ (reads ks e) = at_public (compute_public_key ks) refl
  where
    at_public :
        (o : Option Bytes)
        → compute_public_key ks ≡ o
        → Sets compute_public_key server (ok (use_key compute_public_key (some ks) server))
    at_public none p = rw (use_key, p) keeps
    at_public (some public) p =
        rw (use_key, p) (changes (record { private_key = ks; public_key = public }) e p)

data Enough : Option Bytes → Type 0 where
  short : Enough none
  enough : (s : Bytes) → 64 ≤ length s → Enough (some s)

pick-Enough :
    (b : Bool) (s : Bytes) → (b ≡ false → 64 ≤ length s) → Enough (if b then none else some s)
pick-Enough true s h = short
pick-Enough false s h = enough s (h refl)

if-Enough : (b : Bool) (x y : Option Bytes) → Enough x → Enough y → Enough (if b then x else y)
if-Enough true x y hx hy = hx
if-Enough false x y hx hy = hy

digits_of-Enough : (s : Bytes) → Enough (digits_of s)
unfolding digits_of
digits_of-Enough [] = pick-Enough (ltb (length {A = ℕ} []) 64) [] (ltb→le 0 64)
digits_of-Enough (c ∷ []) = pick-Enough (ltb 1 64) (c ∷ []) (ltb→le 1 64)
digits_of-Enough (c ∷ d ∷ ds) =
    if-Enough (c == 48 && d == 120) (if ltb (suc (suc (length ds))) 66 then none else some ds)
      (if ltb (suc (suc (length ds))) 64 then none else some (c ∷ d ∷ ds))
      (pick-Enough (ltb (suc (suc (length ds))) 66) ds
        (λ e. omega (arith, ltb→le (suc (suc (length ds))) 66 e)))
      (pick-Enough (ltb (suc (suc (length ds))) 64) (c ∷ d ∷ ds)
        (λ e. omega (arith, ltb→le (suc (suc (length ds))) 64 e)))

-- On any string the call stays within the string. It returns false and leaves the keys as they
-- were, or true with a private key of 32 bytes and the public key that belongs to it.
pub set_private_key_string-Sets :
    (compute_public_key : Bytes → Option Bytes) (s : Bytes) (server : Server)
    → Sets compute_public_key server (set_private_key_string compute_public_key s server)
unfolding set_private_key_string from_digits
set_private_key_string-Sets compute_public_key s server =
    at_digits (digits_of s) (digits_of-Enough s)
  where
    at_digits :
        (o : Option Bytes)
        → Enough o
        → Sets compute_public_key server (from_digits compute_public_key server o)
    at_digits _ short = keeps
    at_digits _ (enough digits h) =
        use_key-Sets compute_public_key server (read_pairs 32 digits)
          (read_pairs-Reads 32 digits (omega arith))
