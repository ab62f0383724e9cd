-- ===== src/Handshake/Admits.antt =====
-- Whom `init2` lets in.
use nicenet.Common.{
  ℕ, ◌+◌, ◌%◌, ◌^◌, ◌≤◌, ◌≡◌, ◌≢◌, refl, ap, ◌∙◌, arith, Bool, true, false, not, Option, none, some,
  take, length, ltb, ltb→le, if◌then◌else◌, Bytes,
}
use nicenet.Common.Text.{bytes_eq}
use nicenet.Common.Table.{lookup, bytes_eq_iff}
use nicenet.Sessions.{Session, TcpServer, update, add_session}
use nicenet.Sessions.Replace.{add_session_new}
use nicenet.Handshake.{Crypto, part, accept_answer, admit, init2}

-- The answer has a key other than the server's and a signature of the hash that verifies.
pub record IsAnswer (crypto : Crypto) (server_key hash received : Bytes) : Type 0 where
  pub whole : 128 ≤ length received
  pub other : server_key ≢ take 64 received
  pub verified : crypto.verify (take 64 received) hash (part 64 64 received) ≡ true

pub data Accepted (crypto : Crypto) (server_key hash received : Bytes) : Option Bytes → Type 0 where
  refuses : Accepted crypto server_key hash received none
  accepts :
      IsAnswer crypto server_key hash received
      → Accepted crypto server_key hash received (some (take 64 received))

verdict-Accepted :
    (crypto : Crypto) (server_key hash received : Bytes) (short same verified : Bool)
    → ltb (length received) 128 ≡ short
    → bytes_eq server_key (take 64 received) ≡ same
    → crypto.verify (take 64 received) hash (part 64 64 received) ≡ verified
    → Accepted crypto server_key hash received (
        if short
        then none
        else if same
        then none
        else if not verified
        then none
        else some (take 64 received))
verdict-Accepted crypto server_key hash received true same verified e f g = refuses
verdict-Accepted crypto server_key hash received false true verified e f g = refuses
verdict-Accepted crypto server_key hash received false false false e f g = refuses
verdict-Accepted crypto server_key hash received false false true e f g = accepts (record {
  whole = ltb→le (length received) 128 e;
  other = λ p. ground (arith, bytes_eq_iff server_key (take 64 received), f, p);
  verified = g;
})

accept_answer-Accepted :
    (crypto : Crypto) (server_key hash received : Bytes)
    → Accepted crypto server_key hash received (accept_answer crypto server_key hash received)
unfolding accept_answer
accept_answer-Accepted crypto server_key hash received =
    verdict-Accepted crypto server_key hash received (ltb (length received) 128)
      (bytes_eq server_key (take 64 received))
      (crypto.verify (take 64 received) hash (part 64 64 received)) refl refl refl

-- What the server has after an answer for the session at `h`: what it had, or that session under
-- the key of a valid answer, with the next serial number.
pub data Admits (crypto : Crypto) (server_key hash received : Bytes) (h n : ℕ) (server : TcpServer)
    : ℕ × TcpServer → Type 0 where
  refused : Admits crypto server_key hash received h n server (n, server)
  admitted :
      (after : TcpServer)
      → IsAnswer crypto server_key hash received
      → lookup (take 64 received) after.sessions ≡ some h
      → (after.session h).serial_id ≡ n
      → ((k : Bytes) → k ≢ take 64 received → lookup k after.sessions ≡ lookup k server.sessions)
      → Admits crypto server_key hash received h n server ((n + 1) % 2 ^ 64, after)

update_self : (f : ℕ → Session) (h : ℕ) (s : Session) → update f h s h ≡ s
update_self f h s = ground arith

admit-Admits :
    (crypto : Crypto) (server_key hash received : Bytes) (h n : ℕ) (server : TcpServer)
    (o : Option Bytes)
    → Accepted crypto server_key hash received o
    → Admits crypto server_key hash received h n server (admit h o (n, server))
unfolding admit
admit-Admits crypto server_key hash received h n server _ refuses = refused
admit-Admits crypto server_key hash received h n server _ (accepts valid) =
    let uid = take 64 received in
    let session = record (server.session h) { uid = uid; serial_id = n } in
    let joined = record server { session = update server.session h session } in
    let (here, others, serials) = add_session_new uid h joined in
    admitted (add_session uid h joined) valid here
      (serials h ∙ ap (λ (s : Session). s.serial_id) (update_self server.session h session)) others

-- A connection joins a server's sessions only by an answer of full length, with a key other than
-- the server's and a signature of the session's hash that verifies under that key; it is then the
-- session of that key, under the next serial number, and the other keys keep their sessions.
pub init2-Admits :
    (crypto : Crypto) (server_key hash received : Bytes) (h n : ℕ) (server : TcpServer)
    → Admits crypto server_key hash received h n server
        (init2 crypto server_key hash received h (n, server))
unfolding init2
init2-Admits crypto server_key hash received h n server =
    admit-Admits crypto server_key hash received h n server
      (accept_answer crypto server_key hash received)
      (accept_answer-Accepted crypto server_key hash received)
