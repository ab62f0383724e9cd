-- ===== src/Handshake/Honest.antt =====
-- A client and a server that both follow the protocol.
use nicenet.Common.{
  ℕ, ◌+◌, ◌%◌, ◌^◌, ◌≡◌, ◌≢◌, refl, sym, ap, ◌∙◌, arith, Bool, true, false, none, some, ◌++◌,
  append_assoc, length, take, length-append, take-append, take-append_le, le→ltb, length-le_bytes,
  le_bytes, Bytes, ◌==◌, if◌then◌else◌,
}
use nicenet.Common.Text.{bytes_eq}
use nicenet.Common.Table.{bytes_eq_iff}
use nicenet.Keys.{Server}
use nicenet.Handshake.{
  Crypto, Client, greeting, part, hello, is_far, answer, client_init, accept_answer,
}
use nicenet.Handshake.Fields.{part-append, part_last}
use nicenet.Handshake.Checks.{IsHash, IsSigned, signed_verdict}

-- What micro-ecc documents of a key pair: the signatures that it makes have `SIGN_SIZE` bytes and
-- verify.
pub record IsKeys (crypto : Crypto) (keys : Server) : Type 0 where
  pub size : length keys.public_key ≡ 64
  pub sign_size :
      (hash sign : Bytes) → crypto.sign keys.private_key hash ≡ some sign → length sign ≡ 64
  pub verifies :
      (hash sign : Bytes)
      → crypto.sign keys.private_key hash ≡ some sign
      → crypto.verify keys.public_key hash sign ≡ true

-- what `init` sends
abbrev pub sent : Crypto → Server → ℕ → Bytes → Bytes
sent crypto server time sign =
    greeting server.public_key time ++ (crypto.sha3 (greeting server.public_key time) ++ sign)

hello-sent :
    (crypto : Crypto) (server : Server) (time : ℕ) (sign : Bytes)
    → crypto.sign server.private_key (crypto.sha3 (greeting server.public_key time)) ≡ some sign
    → hello crypto server time
      ≡ some (crypto.sha3 (greeting server.public_key time), sent crypto server time sign)
unfolding hello
hello-sent crypto server time sign e = rw (hello, e) refl

length-greeting : (key : Bytes) (time : ℕ) → length key ≡ 64 → length (greeting key time) ≡ 72
length-greeting key time h =
    omega (arith, length-append key (le_bytes 8 time), length-le_bytes 8 time)

module _ (crypto : Crypto) (server : Server) (time : ℕ) (sign : Bytes) (hash_ok : IsHash crypto)
    (keys : IsKeys crypto server)
    (e : crypto.sign server.private_key (crypto.sha3 (greeting server.public_key time))
      ≡ some sign) where
  head_sent : take 72 (sent crypto server time sign) ≡ greeting server.public_key time
  head_sent =
      take-append 72 (greeting server.public_key time)
        (crypto.sha3 (greeting server.public_key time) ++ sign)
        (sym (length-greeting server.public_key time keys.size))

  pub key_sent : take 64 (sent crypto server time sign) ≡ server.public_key
  key_sent =
      let long = length-greeting server.public_key time keys.size in
      take-append_le 64 (greeting server.public_key time)
        (crypto.sha3 (greeting server.public_key time) ++ sign) (omega (arith, long))
      ∙ take-append 64 server.public_key (le_bytes 8 time) (sym keys.size)

  pub hash_sent :
      part 72 32 (sent crypto server time sign) ≡ crypto.sha3 (greeting server.public_key time)
  hash_sent =
      part-append 72 32 (greeting server.public_key time)
        (crypto.sha3 (greeting server.public_key time)) sign
        (sym (length-greeting server.public_key time keys.size))
        (sym (hash_ok.size (greeting server.public_key time)))

  sign_sent : part 104 64 (sent crypto server time sign) ≡ sign
  sign_sent =
      let hash = crypto.sha3 (greeting server.public_key time) in
      let long = length-greeting server.public_key time keys.size in
      let sum = length-append (greeting server.public_key time) hash in
      ap (part 104 64) (sym (append_assoc (greeting server.public_key time) hash sign))
      ∙ part_last 104 64 (greeting server.public_key time ++ hash) sign
          (omega (arith, long, sum, hash_ok.size (greeting server.public_key time)))
          (sym (keys.sign_size hash sign e))

  pub size_sent : length (sent crypto server time sign) ≡ 168
  size_sent =
      let hash = crypto.sha3 (greeting server.public_key time) in
      omega (
        arith,
        length-greeting server.public_key time keys.size,
        length-append (greeting server.public_key time) (hash ++ sign),
        length-append hash sign,
        hash_ok.size (greeting server.public_key time),
        keys.sign_size hash sign e,
      )

  pub sent-IsSigned :
      (own : Bytes) → own ≢ server.public_key → IsSigned crypto own (sent crypto server time sign)
  sent-IsSigned own ne = record {
    other = λ p. ne (p ∙ key_sent);
    hashed = ap crypto.sha3 head_sent ∙ sym hash_sent;
    verified =
        ap
          (λ (k : Bytes).
            crypto.verify k (part 72 32 (sent crypto server time sign))
              (part 104 64 (sent crypto server time sign)))
          key_sent
        ∙ ap
            (λ (h : Bytes).
              crypto.verify server.public_key h (part 104 64 (sent crypto server time sign)))
            hash_sent
        ∙ ap (crypto.verify server.public_key (crypto.sha3 (greeting server.public_key time)))
            sign_sent
        ∙ keys.verifies (crypto.sha3 (greeting server.public_key time)) sign e;
  }

goes_on :
    (crypto : Crypto) (now : ℕ) (ec : Bool) (n : ℕ) (received : Bytes) (client : Client)
    → length received ≡ 168
    → IsSigned crypto client.keys.public_key received
    → client_init crypto now ec n received client
      ≡ answer ec n received client (crypto.sign client.keys.private_key (part 72 32 received))
unfolding client_init
goes_on crypto now ec n received client size signed =
    rw (le→ltb (length received) 168 (omega arith)) (
      rw (signed_verdict crypto client.keys.public_key received now signed)
        (not_one (is_far now received)))
  where
    not_one :
        (b : Bool)
        → (if (if b then 2 else 0) == 1
            then (none, n, client)
            else answer ec n received client
                (crypto.sign client.keys.private_key (part 72 32 received)))
          ≡ answer ec n received client (crypto.sign client.keys.private_key (part 72 32 received))
    not_one true = refl
    not_one false = refl

accepts :
    (crypto : Crypto) (server_key hash : Bytes) (keys : Server) (sign : Bytes)
    → IsKeys crypto keys
    → server_key ≢ keys.public_key
    → crypto.sign keys.private_key hash ≡ some sign
    → accept_answer crypto server_key hash (keys.public_key ++ sign) ≡ some keys.public_key
unfolding accept_answer
accepts crypto server_key hash keys sign ok ne e =
    let size = ok.sign_size hash sign e in
    let sum = length-append keys.public_key sign in
    let enough =
      le→ltb (length (keys.public_key ++ sign)) 128 (omega (arith, sum, size, ok.size)) in
    let differs : bytes_eq server_key keys.public_key ≡ false =
      ground (arith, bytes_eq_iff server_key keys.public_key, ne) in
    rw enough (
      rw (take-append 64 keys.public_key sign (sym ok.size)) (
        rw differs (
          rw (part_last 64 64 keys.public_key sign (sym ok.size) (sym size))
            (rw (ok.verifies hash sign e) refl))))

-- With other keys than the server's, a client that follows the protocol takes the server's key
-- for its uid, whatever its clock says, and answers; and the server takes the answer to be from
-- that client.
pub handshake_lem :
    (crypto : Crypto) (server : Server) (client : Client) (time now n : ℕ) (sign answered : Bytes)
    → IsHash crypto
    → IsKeys crypto server
    → IsKeys crypto client.keys
    → client.keys.public_key ≢ server.public_key
    → crypto.sign server.private_key (crypto.sha3 (greeting server.public_key time)) ≡ some sign
    → crypto.sign client.keys.private_key (crypto.sha3 (greeting server.public_key time))
      ≡ some answered
    → (hello crypto server time
        ≡ some (crypto.sha3 (greeting server.public_key time), sent crypto server time sign))
      × (client_init crypto now false n (sent crypto server time sign) client ≡ (
        some (client.keys.public_key ++ answered),
        (n + 1) % 2 ^ 64,
        record client { uid = server.public_key; serial_id = n; is_init = true },
      ))
      × (accept_answer crypto server.public_key
            (crypto.sha3 (greeting server.public_key time))
            (client.keys.public_key ++ answered)
          ≡ some client.keys.public_key)
unfolding answer
handshake_lem crypto server client time now n sign answered hash_ok server_keys client_keys ne e
      e' =
    (
      hello-sent crypto server time sign e,
      goes_on crypto now false n (sent crypto server time sign) client
            (size_sent crypto server time sign hash_ok server_keys e)
            (sent-IsSigned crypto server time sign hash_ok server_keys e client.keys.public_key ne)
          ∙ ap
              (λ (h : Bytes).
                answer false n (sent crypto server time sign) client
                  (crypto.sign client.keys.private_key h))
              (hash_sent crypto server time sign hash_ok server_keys e)
          ∙ ap (answer false n (sent crypto server time sign) client) e'
          ∙ ap
              (λ (k : Bytes). (
                some (client.keys.public_key ++ answered),
                (n + 1) % 2 ^ 64,
                record client { uid = k; serial_id = n; is_init = true },
              ))
              (key_sent crypto server time sign hash_ok server_keys e),
      accepts crypto server.public_key (crypto.sha3 (greeting server.public_key time)) client.keys
          answered client_keys (λ p. ne (sym p)) e',
    )
