-- ===== src/Sessions.antt =====
-- Tcp.cpp: the sessions of a `TcpServer`. A session object stands at a handle (its shared
-- pointer); `m_sessions` maps a client's public key to the handle of its session. The functions
-- run on the main loop, one after another.
pub mod Replace
pub mod Reach
pub mod Refines
mod Examples
use nicenet.Common.{ℕ, Bool, true, false, Option, none, some, ◌==◌, if◌then◌else◌, Bytes}
use nicenet.Common.Table.{Table, lookup, insert, erase}

pub record Session : Type 0 where
  pub uid : Bytes
  pub serial_id : ℕ
  -- the socket has not been closed
  pub is_open : Bool

pub record TcpServer : Type 0 where
  pub session : ℕ → Session
  pub sessions : Table ℕ

abbrev pub update : (ℕ → Session) → ℕ → Session → ℕ → Session
update f h s k = if h == k then s else f k

abbrev pub close : ℕ → TcpServer → TcpServer
close h server = record server {
  session = update server.session h (record (server.session h) { is_open = false });
}

unfoldable pub close_found : Option ℕ → TcpServer → TcpServer
close_found none server = server
close_found (some h) server = close h server

unfoldable pub add_session : Bytes → ℕ → TcpServer → TcpServer
unfolding close_found
add_session uid h server =
    let server' = close_found (lookup uid server.sessions) server in
    record server' { sessions = insert uid h server'.sessions }

unfoldable pub remove_found : Bytes → ℕ → Option ℕ → TcpServer → TcpServer
remove_found uid serial none server = server
remove_found uid serial (some h) server =
    if (server.session h).serial_id == serial
    then record (close h server) { sessions = erase uid server.sessions }
    else server

unfoldable pub remove_session : Bytes → ℕ → TcpServer → TcpServer
unfolding remove_found
remove_session uid serial server = remove_found uid serial (lookup uid server.sessions) server

-- `removeSelfImpl` of the session at `h`, whose `m_TcpServer` the server set when it accepted it
unfoldable pub remove_self_impl : ℕ → TcpServer → TcpServer
unfolding remove_session
remove_self_impl h server = let s = server.session h in remove_session s.uid s.serial_id server
