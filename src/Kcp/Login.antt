-- ===== src/Kcp/Login.antt =====
-- Kcp.cpp: the handshake over datagrams. The server's greeting has its public key, its time and
-- the number of the worker, their hash and the signature of the hash (`KcpSessionS::init`); the
-- client checks it, takes the number over and answers (`KcpSessionC::init`).
pub mod Honest
mod Examples
use nicenet.Common.{
  ℕ, ◌+◌, ◌%◌, ◌^◌, Bool, true, not, Option, none, some, ◌∷◌, ◌++◌, ltb, ◌==◌, if◌then◌else◌,
  length, take, Bytes, le_bytes, of_le, [],
}
use nicenet.Common.Text.{bytes_eq}
use nicenet.Keys.{Server}
use nicenet.Kcp.Server.{KcpServer, set_at}
use nicenet.Handshake.{Crypto, part, public_key_size, same_words, is_far}

-- what is hashed
abbrev pub greeting : Bytes → ℕ → ℕ → Bytes
greeting public_key now conv = public_key ++ (le_bytes 8 now ++ le_bytes 4 conv)

-- `KcpSessionS::init`: the session's `m_hash` and what is sent, unless signing fails.
unfoldable pub hello : Crypto → Server → ℕ → ℕ → Option (Bytes × Bytes)
hello crypto server now conv =
    let front = greeting server.public_key now conv in
    let hash = crypto.sha3 front in
    elim (crypto.sign server.private_key hash) [
      | none ↦ none
      | some sign ↦ some (hash, front ++ (hash ++ sign))
    ]

-- `KcpSessionS::init` of the session at `h`: what is sent, and the server. `m_hash` is set whether
-- or not signing fails.
unfoldable pub init : Crypto → Server → ℕ → ℕ → KcpServer → Option Bytes × KcpServer
unfolding hello
init crypto server now h s =
    let me = s.session h in
    let hash = crypto.sha3 (greeting server.public_key now me.worker) in
    let sent : Option Bytes = elim (hello crypto server now me.worker) [
      | none ↦ none
      | some (_, m) ↦ some m
    ] in
    (sent, record s { session = set_at h (record me { uid = []; hash = hash }) s.session })

-- `KcpSessionC::checkServerSign`: 0 ok, 1 error, 2 warning.
unfoldable pub check_server_sign : Crypto → Bytes → ℕ → Bytes → ℕ
unfolding same_words is_far
check_server_sign crypto public_key now received =
    let server_key = take public_key_size received in
    let ret = if is_far now received then 2 else 0 in
    let hash = part 76 32 received in
    if bytes_eq public_key server_key
    then 1
    else if not (same_words 4 (crypto.sha3 (take 76 received)) hash)
    then 1
    else if not (crypto.verify server_key hash (part 108 64 received))
    then 1
    else ret

pub record Client : Type 0 where
  pub keys : Server
  pub uid : Bytes
  pub conv : ℕ
  pub serial_id : ℕ
  pub is_init : Bool

-- From the signature on: the answer, the next serial number and the client. `sent_all` tells that
-- `send_to` took the whole answer.
unfoldable pub answer : Bool → ℕ → Client → Option Bytes → Option Bytes × ℕ × Client
answer sent_all now_serial_id client none = (none, now_serial_id, client)
answer sent_all now_serial_id client (some sign) = (
  some (2 ∷ (client.keys.public_key ++ sign)),
  (now_serial_id + 1) % 2 ^ 64,
  record client {
    uid = client.keys.public_key;
    serial_id = now_serial_id;
    is_init = if sent_all then true else client.is_init;
  },
)

-- `KcpSessionC::init`'s handler on the datagram that it received.
unfoldable pub client_init : Crypto → ℕ → Bool → ℕ → Bytes → Client → Option Bytes × ℕ × Client
unfolding check_server_sign answer
client_init crypto now sent_all now_serial_id received client =
    if ltb (length received) 172
    then (none, now_serial_id, client)
    else if check_server_sign crypto client.keys.public_key now received == 1
    then (none, now_serial_id, client)
    else answer sent_all now_serial_id
        (record client { conv = of_le (part (public_key_size + 8) 4 received) })
        (crypto.sign client.keys.private_key (part 76 32 received))
