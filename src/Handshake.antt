-- ===== src/Handshake.antt =====
-- Tcp.cpp: the handshake of a new connection. The server sends its public key, its time, their
-- hash and the signature of the hash (`TcpSessionS::init`); the client checks these and answers
-- with its own public key and its signature of the same hash (`TcpSessionC::init`); the server
-- checks the answer and adds the session (`TcpSessionS::init2`). The hash and the curve are third
-- parties' code, a record of functions here.
pub mod Fields
pub mod Checks
pub mod Honest
pub mod Admits
pub mod StandIn
mod Examples
use nicenet.Common.{
  ℕ, zero, suc, ◌+◌, ◌-◌, ◌%◌, ◌^◌, Bool, true, false, not, ◌&&◌, ◌||◌, Option, none, some, List,
  [], ◌∷◌, ◌++◌, ltb, ◌==◌, if◌then◌else◌, length, take, drop, Bytes, le_bytes, of_le, ◌≡◌,
}
use nicenet.Common.Text.{bytes_eq}
use nicenet.Keys.{Server}
use nicenet.Sessions.{TcpServer, update, add_session}

-- `sha3` with `HASH_SIZE`, `uECC_sign` of a hash by a private key (none for a result other than
-- 1), and whether `uECC_verify` of a public key, a hash and a signature returns 1.
pub record Crypto : Type 0 where
  pub sha3 : Bytes → Bytes
  pub sign : Bytes → Bytes → Option Bytes
  pub verify : Bytes → Bytes → Bytes → Bool

-- `PUBLIC_KEY_SIZE`, and `PUBLIC_KEY_SIZE + 8`
abbrev pub public_key_size : ℕ
public_key_size = 64

abbrev pub hash_at : ℕ
hash_at = 72

-- the `n` bytes of `received` from `i` on
abbrev pub part : ℕ → ℕ → Bytes → Bytes
part i n received = take n (drop i received)

-- what is hashed: the server's key and its time
abbrev pub greeting : Bytes → ℕ → Bytes
greeting public_key now = public_key ++ le_bytes 8 now

-- `TcpSessionS::init`: the session's `m_hash` and what is sent, unless signing fails.
unfoldable pub hello : Crypto → Server → ℕ → Option (Bytes × Bytes)
hello crypto server now =
    let hash = crypto.sha3 (greeting server.public_key now) in
    elim (crypto.sign server.private_key hash) [
      | none ↦ none
      | some sign ↦ some (hash, greeting server.public_key now ++ (hash ++ sign))
    ]

-- the loop over the hash: `n` words of eight bytes
unfoldable pub same_words : ℕ → Bytes → Bytes → Bool
same_words zero a b = true
same_words (suc n) a b =
    let rest = same_words n (drop 8 a) (drop 8 b) in (of_le (take 8 a) == of_le (take 8 b)) && rest

-- the time of `received` is more than ten from `now`, each sum and difference modulo 2 ^ 64
unfoldable pub is_far : ℕ → Bytes → Bool
is_far now received =
    let server_time = of_le (part public_key_size 8 received) in
    ltb ((server_time + 10) % 2 ^ 64) now || ltb now ((server_time + 2 ^ 64 - 10) % 2 ^ 64)

-- `checkServerSign` by a client with the given public key: 0 ok, 1 error, 2 warning.
unfoldable pub check_server_sign : Crypto → Bytes → ℕ → Bytes → ℕ
unfolding same_words is_far
check_server_sign crypto public_key now received =
    let server_key = take public_key_size received in
    let ret = if is_far now received then 2 else 0 in
    let check_hash = crypto.sha3 (take hash_at received) in
    let hash = part hash_at 32 received in
    if bytes_eq public_key server_key
    then 1
    else if not (same_words 4 check_hash hash)
    then 1
    else if not (crypto.verify server_key hash (part 104 64 received))
    then 1
    else ret

pub record Client : Type 0 where
  pub keys : Server
  pub uid : Bytes
  pub serial_id : ℕ
  pub is_init : Bool

-- The client after it signed: the answer, the next serial number and the client. `ec` tells that
-- sending the answer failed.
unfoldable pub answer : Bool → ℕ → Bytes → Client → Option Bytes → Option Bytes × ℕ × Client
answer ec now_serial_id received client none = (none, now_serial_id, client)
answer ec now_serial_id received client (some sign) = (
  some (client.keys.public_key ++ sign),
  (now_serial_id + 1) % 2 ^ 64,
  record client {
    uid = take public_key_size received;
    serial_id = now_serial_id;
    is_init = if ec then client.is_init else true;
  },
)

-- The handler of `TcpSessionC::init` on what it read.
unfoldable pub client_init : Crypto → ℕ → Bool → ℕ → Bytes → Client → Option Bytes × ℕ × Client
unfolding check_server_sign answer
client_init crypto now ec now_serial_id received client =
    if ltb (length received) 168
    then (none, now_serial_id, client)
    else if check_server_sign crypto client.keys.public_key now received == 1
    then (none, now_serial_id, client)
    else answer ec now_serial_id received client
        (crypto.sign client.keys.private_key (part hash_at 32 received))

-- Which client `TcpSessionS::init2` takes an answer to be from; none where it returns early.
unfoldable pub accept_answer : Crypto → Bytes → Bytes → Bytes → Option Bytes
accept_answer crypto server_key hash received =
    let client_key = take public_key_size received in
    if ltb (length received) 128
    then none
    else if bytes_eq server_key client_key
    then none
    else if not (crypto.verify client_key hash (part public_key_size 64 received))
    then none
    else some client_key

-- `m_uid` and `m_serialID` are set, and `addSession` runs
unfoldable pub admit : ℕ → Option Bytes → ℕ × TcpServer → ℕ × TcpServer
unfolding add_session
admit h none (now_serial_id, server) = (now_serial_id, server)
admit h (some uid) (now_serial_id, server) =
    let session = record (server.session h) { uid = uid; serial_id = now_serial_id } in
    (
      (now_serial_id + 1) % 2 ^ 64,
      add_session uid h (record server { session = update server.session h session }),
    )

-- The handler of `init2` on what the session at `h` has read, with the function that it posts.
unfoldable pub init2 : Crypto → Bytes → Bytes → Bytes → ℕ → ℕ × TcpServer → ℕ × TcpServer
unfolding accept_answer admit
init2 crypto server_key hash received h state =
    admit h (accept_answer crypto server_key hash received) state
