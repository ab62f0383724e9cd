-- ===== src/Kcp/Login/Honest.antt =====
-- A client and a server that both follow the protocol over datagrams.
use nicenet.Common.{
  ℕ, ◌+◌, ◌%◌, ◌^◌, ◌<◌, ◌≡◌, ◌≢◌, refl, sym, ap, ◌∙◌, arith, Bool, true, false, none, some, ◌∷◌,
  ◌++◌, append_assoc, length, take, length-append, take-append, take-append_le, le→ltb,
  length-le_bytes, le_bytes, of_le-le_bytes, Bytes, ok, ◌==◌, if◌then◌else◌,
}
use nicenet.Common.Text.{bytes_eq}
use nicenet.Common.Table.{bytes_eq_iff}
use nicenet.Keys.{Server}
use nicenet.Handshake.{Crypto, part, is_far}
use nicenet.Handshake.Fields.{part-append, part_last, same_words_self}
use nicenet.Handshake.Checks.{IsHash}
use nicenet.Handshake.Honest.{IsKeys}
use nicenet.Kcp.{check_sign, answers, receive}
use nicenet.Kcp.Server.{KcpServer, set_at, init2, init3, accept_answer, on_answer}
use nicenet.Kcp.Login.{Client, greeting, hello, init, check_server_sign, answer, client_init}

not_one : (b : Bool) → ((if b then 2 else 0) == 1) ≡ false
not_one true = refl
not_one false = refl

module _ (crypto : Crypto) (server : Server) (time conv : ℕ) (sign : Bytes)
    (hash_ok : IsHash crypto) (keys : IsKeys crypto server)
    (e : crypto.sign server.private_key (crypto.sha3 (greeting server.public_key time conv))
      ≡ some sign) where
  abbrev front : Bytes
  front = greeting server.public_key time conv

  abbrev hash : Bytes
  hash = crypto.sha3 front

  -- what `init` sends
  abbrev pub sent : Bytes
  sent = front ++ (hash ++ sign)

  length-front : length front ≡ 76
  length-front = omega (
    arith,
    length-append server.public_key (le_bytes 8 time ++ le_bytes 4 conv),
    length-append (le_bytes 8 time) (le_bytes 4 conv),
    length-le_bytes 8 time,
    length-le_bytes 4 conv,
    keys.size,
  )

  head_sent : take 76 sent ≡ front
  head_sent = take-append 76 front (hash ++ sign) (sym length-front)

  key_sent : take 64 sent ≡ server.public_key
  key_sent =
      take-append_le 64 front (hash ++ sign) (omega (arith, length-front))
      ∙ take-append 64 server.public_key (le_bytes 8 time ++ le_bytes 4 conv) (sym keys.size)

  hash_sent : part 76 32 sent ≡ hash
  hash_sent = part-append 76 32 front hash sign (sym length-front) (sym (hash_ok.size front))

  sign_sent : part 108 64 sent ≡ sign
  sign_sent =
      ap (part 108 64) (sym (append_assoc front hash sign))
      ∙ part_last 108 64 (front ++ hash) sign
          (omega (arith, length-front, length-append front hash, hash_ok.size front))
          (sym (keys.sign_size hash sign e))

  conv_sent : part 72 4 sent ≡ le_bytes 4 conv
  conv_sent =
      let shape : sent
          ≡ (server.public_key ++ le_bytes 8 time) ++ (le_bytes 4 conv ++ (hash ++ sign)) =
        append_assoc server.public_key (le_bytes 8 time ++ le_bytes 4 conv) (hash ++ sign)
        ∙ sym (
            append_assoc server.public_key (le_bytes 8 time) (le_bytes 4 conv ++ (hash ++ sign))) in
      ap (part 72 4) shape
      ∙ part-append 72 4 (server.public_key ++ le_bytes 8 time) (le_bytes 4 conv) (hash ++ sign)
          (omega (arith, length-append server.public_key (le_bytes 8 time), keys.size)) refl

  size_sent : length sent ≡ 172
  size_sent = omega (
    arith,
    length-front,
    length-append front (hash ++ sign),
    length-append hash sign,
    hash_ok.size front,
    keys.sign_size hash sign e,
  )

  verdict :
      (own : Bytes) (now : ℕ)
      → own ≢ server.public_key
      → check_server_sign crypto own now sent ≡ (if is_far now sent then 2 else 0)
  unfolding check_server_sign
  verdict own now ne =
      let differs : bytes_eq own server.public_key ≡ false =
        ground (arith, bytes_eq_iff own server.public_key, ne) in
      rw key_sent (
        rw differs (
          rw head_sent (
            rw hash_sent
              (rw (same_words_self 4 hash) (rw sign_sent (rw (keys.verifies hash sign e)))))))

  pub client_goes_on :
      (client : Client) (now n : ℕ)
      → client.keys.public_key ≢ server.public_key
      → conv < 2 ^ 32
      → client_init crypto now true n sent client
        ≡ answer true n (record client { conv = conv }) (crypto.sign client.keys.private_key hash)
  unfolding client_init
  client_goes_on client now n ne small = rw (le→ltb (length sent) 172 (omega (arith, size_sent))) (
      rw (verdict client.keys.public_key now ne) (
        rw (not_one (is_far now sent))
          (rw hash_sent (rw conv_sent (rw (of_le-le_bytes 4 conv small))))))

accepts :
    (crypto : Crypto) (server_key hash : Bytes) (keys : Server) (sign : Bytes)
    → IsKeys crypto keys
    → server_key ≢ keys.public_key
    → crypto.sign keys.private_key hash ≡ some sign
    → check_sign crypto server_key hash (keys.public_key ++ sign) ≡ true
unfolding check_sign
accepts crypto server_key hash keys sign good ne e =
    let size = good.sign_size hash sign e in
    let differs : bytes_eq server_key keys.public_key ≡ false =
      ground (arith, bytes_eq_iff server_key keys.public_key, ne) in
    rw (take-append 64 keys.public_key sign (sym good.size)) (
      rw differs (
        rw (part_last 64 64 keys.public_key sign (sym good.size) (sym size))
          (good.verifies hash sign e)))

-- An answer arrives as one, whatever earlier datagrams left in the buffer.
arrives :
    (garbage : ℕ → ℕ) (received stale : Bytes)
    → length received ≡ 128
    → receive garbage (2 ∷ (received ++ stale)) 129 ≡ ok (answers (some received))
unfolding receive bytes_eq
arrives garbage received stale size = rw (take-append 128 received stale (sym size))

-- The handshake with a session that waits for the answer.
kcp_handshake_lem :
    (crypto : Crypto) (server : Server) (client : Client) (time now conv n : ℕ)
    (sign answered stale : Bytes) (garbage : ℕ → ℕ) (sender h : ℕ) (s : KcpServer)
    → IsHash crypto
    → IsKeys crypto server
    → IsKeys crypto client.keys
    → client.keys.public_key ≢ server.public_key
    → conv < 2 ^ 32
    → let hash = crypto.sha3 (greeting server.public_key time conv) in
      let sent = greeting server.public_key time conv ++ (hash ++ sign) in
      let key = client.keys.public_key in
      crypto.sign server.private_key hash ≡ some sign
      → crypto.sign client.keys.private_key hash ≡ some answered
      → s.pre_sessions sender ≡ some h
      → (s.session h).hash ≡ hash
      → (hello crypto server time conv ≡ some (hash, sent))
        × (client_init crypto now true n sent client ≡ (
          some (2 ∷ (key ++ answered)),
          (n + 1) % 2 ^ 64,
          record client { uid = key; conv = conv; serial_id = n; is_init = true },
        ))
        × (receive garbage (2 ∷ ((key ++ answered) ++ stale)) 129
            ≡ ok (answers (some (key ++ answered))))
        × (on_answer crypto server.public_key sender (some (key ++ answered)) s
            ≡ init3 h (record s {
              pre_sessions = set_at sender none s.pre_sessions;
              session = set_at h (record (s.session h) { uid = key }) s.session;
            }))
unfolding hello answer on_answer accept_answer
kcp_handshake_lem crypto server client time now conv n sign answered stale garbage sender h s
      hash_ok server_keys client_keys ne small e e' waits hashed =
    let hash = crypto.sha3 (greeting server.public_key time conv) in
    let size = client_keys.sign_size hash answered e' in
    let long = length-append client.keys.public_key answered in
    (
      rw (e, hello),
      client_goes_on crypto server time conv sign hash_ok server_keys e client now n ne small
          ∙ ap (answer true n (record client { conv = conv })) e',
      arrives garbage (client.keys.public_key ++ answered) stale
          (omega (arith, size, long, client_keys.size)),
      rw (waits, accept_answer)
          (rw hashed (
            rw
              (accepts crypto server.public_key hash client.keys answered client_keys
                (λ p. ne (sym p)) e')
              (rw (take-append 64 client.keys.public_key answered (sym client_keys.size))))),
    )

-- A new session greets a client that follows the protocol, with other keys than the server's. The
-- client takes the worker's number from the greeting, whatever its clock says, and answers. The
-- answer arrives at the server, whatever was in the buffer before, and its signature is
-- accepted: the session, which waits under its client's endpoint, gets the client's key for its
-- uid, waits no longer and is passed on to the main loop.
pub kcp_login_lem :
    (crypto : Crypto) (server : Server) (client : Client) (time now n : ℕ)
    (sign answered stale : Bytes) (garbage : ℕ → ℕ) (h : ℕ) (s : KcpServer)
    → IsHash crypto
    → IsKeys crypto server
    → IsKeys crypto client.keys
    → client.keys.public_key ≢ server.public_key
    → (s.session h).worker < 2 ^ 32
    → let me = s.session h in
      let hash = crypto.sha3 (greeting server.public_key time me.worker) in
      let sent = greeting server.public_key time me.worker ++ (hash ++ sign) in
      let key = client.keys.public_key in
      let greeted = init2 h (init crypto server time h s).1 in
      crypto.sign server.private_key hash ≡ some sign
      → crypto.sign client.keys.private_key hash ≡ some answered
      → ((init crypto server time h s).0 ≡ some sent)
        × (client_init crypto now true n sent client ≡ (
          some (2 ∷ (key ++ answered)),
          (n + 1) % 2 ^ 64,
          record client { uid = key; conv = me.worker; serial_id = n; is_init = true },
        ))
        × (receive garbage (2 ∷ ((key ++ answered) ++ stale)) 129
            ≡ ok (answers (some (key ++ answered))))
        × (on_answer crypto server.public_key me.endpoint (some (key ++ answered)) greeted
            ≡ init3 h (record greeted {
              pre_sessions = set_at me.endpoint none greeted.pre_sessions;
              session = set_at h (record (greeted.session h) { uid = key }) greeted.session;
            }))
unfolding init
kcp_login_lem crypto server client time now n sign answered stale garbage h s hash_ok server_keys
      client_keys ne small e e' =
    let me = s.session h in
    let hash = crypto.sha3 (greeting server.public_key time me.worker) in
    let greeted = init2 h (init crypto server time h s).1 in
    let (sends, goes_on, reaches, admits) =
      kcp_handshake_lem crypto server client time now me.worker n sign answered stale garbage
        me.endpoint h greeted hash_ok server_keys client_keys ne small e e' (ground arith)
        (ground arith) in
    (rw (sends, init), goes_on, reaches, admits)
