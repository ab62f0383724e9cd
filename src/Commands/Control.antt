-- ===== src/Commands/Control.antt =====
-- Which messages reach a command.
use nicenet.Common.{◌≡◌, ◌≢◌, arith, Bool, true, false, Option}
use nicenet.Message.{Message, get_msg_id}
use nicenet.Commands.{
  MessageParser, drops, acknowledges, kcp_ready_ntf, sysping_req, sysping_ack, tcp_handle_message,
  kcp_handle_message,
}

-- A KCP session that is not closed runs what a TCP session runs, but for the three numbers that
-- the transport keeps to itself; a closed one runs nothing.
pub kcp_handle_message_lem :
    (closed : Bool) (parser : Option MessageParser) (msg : Message)
    → (closed ≡ true → kcp_handle_message closed parser msg ≡ drops)
      × (closed ≡ false
          → get_msg_id msg ≢ kcp_ready_ntf
          → get_msg_id msg ≢ sysping_ack
          → get_msg_id msg ≢ sysping_req
          → kcp_handle_message closed parser msg ≡ tcp_handle_message parser msg)
      × (closed ≡ false
          → get_msg_id msg ≡ sysping_req
          → kcp_handle_message closed parser msg ≡ acknowledges)
unfolding kcp_handle_message
kcp_handle_message_lem closed parser msg = ground arith
