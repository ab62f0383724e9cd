-- ===== src/Handshake/Examples.antt =====
-- The theorems on the handshake, with a stand-in for the curve and the hash.
use nicenet.Common.{◌≡◌, ◌≢◌, ◌↔◌, refl, arith, true, false, some, [], ◌++◌}
use nicenet.Sessions.{TcpServer}
use nicenet.Handshake.{Client, hello, check_server_sign, client_init, accept_answer, init2}
use nicenet.Handshake.Checks.{IsSigned, check_server_sign_iff}
use nicenet.Handshake.Honest.{sent, handshake_lem}
use nicenet.Handshake.StandIn.{
  word32, word64, crypto, crypto-IsHash, server, different, stand_in-IsKeys,
}
use nicenet.Handshake.Admits.{Admits, init2-Admits}

abbrev client : Client
client = record {
  keys = record { private_key = word64 2; public_key = word64 2 };
  uid = [];
  serial_id = 0;
  is_init = false;
}

-- The clocks differ by 800.
handshake_lem_example :
    (hello crypto server 100 ≡ some (word32 7, sent crypto server 100 (word64 1)))
    × (client_init crypto 900 false 10000 (sent crypto server 100 (word64 1)) client ≡ (
      some (word64 2 ++ word64 2),
      10001,
      record client { uid = word64 1; serial_id = 10000; is_init = true },
    ))
    × (accept_answer crypto (word64 1) (word32 7) (word64 2 ++ word64 2) ≡ some (word64 2))
handshake_lem_example =
    handshake_lem crypto server client 100 900 10000 (word64 1) (word64 2) crypto-IsHash
      (stand_in-IsKeys (word64 1) refl) (stand_in-IsKeys (word64 2) refl) different refl refl

check_server_sign_iff_example :
    (check_server_sign crypto (word64 2) 900 (sent crypto server 100 (word64 1)) ≢ 1)
    ↔ IsSigned crypto (word64 2) (sent crypto server 100 (word64 1))
check_server_sign_iff_example =
    check_server_sign_iff crypto (word64 2) (sent crypto server 100 (word64 1)) 900 crypto-IsHash
      (ground arith) refl

abbrev no_sessions : TcpServer
no_sessions = record {
  session = λ h. record { uid = []; serial_id = 0; is_open = true };
  sessions = [];
}

init2-Admits_example :
    Admits crypto
      (word64 1)
      (word32 7)
      (word64 2 ++ word64 2)
      3
      10000
      no_sessions
      (init2 crypto (word64 1) (word32 7) (word64 2 ++ word64 2) 3 (10000, no_sessions))
init2-Admits_example =
    init2-Admits crypto (word64 1) (word32 7) (word64 2 ++ word64 2) 3 10000 no_sessions
