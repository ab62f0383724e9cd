-- ===== src/Commands.antt =====
-- Tcp.cpp and Kcp.cpp: `handleMessage`, which runs the command that is registered for a message's
-- number.
pub mod Control
use nicenet.Common.{
  ℕ, ◌+◌, Bool, true, false, Option, none, some, ◌==◌, if◌then◌else◌, List, [], ◌∷◌,
}
use nicenet.Message.{Message, get_msg_id}

-- `m_commands` of a parser: the numbers that have a command
abbrev pub MessageParser : Type 0
MessageParser = ℕ → Bool

pub data Handled : Type 0 where
  -- nothing happens beyond a line in the log
  drops : Handled
  becomes_ready : Handled
  -- SYSPING_ACK is sent
  acknowledges : Handled
  runs : ℕ → Handled

abbrev pub kcp_ready_ntf : ℕ
kcp_ready_ntf = 65520

abbrev pub sysping_req : ℕ
sysping_req = 65530

abbrev pub sysping_ack : ℕ
sysping_ack = 65531

-- `TcpSession::handleMessage`
unfoldable pub tcp_handle_message : Option MessageParser → Message → Handled
unfolding get_msg_id
tcp_handle_message none msg = drops
tcp_handle_message (some commands) msg =
    if commands (get_msg_id msg) then runs (get_msg_id msg) else drops

-- `KcpSession::handleMessage`
unfoldable pub kcp_handle_message : Bool → Option MessageParser → Message → Handled
unfolding get_msg_id
kcp_handle_message closed parser msg =
    let id = get_msg_id msg in
    if closed
    then drops
    else if id == kcp_ready_ntf
    then becomes_ready
    else if id == sysping_ack
    then drops
    else if id == sysping_req
    then acknowledges
    else tcp_handle_message parser msg
