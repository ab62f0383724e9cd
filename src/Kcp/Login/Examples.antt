-- ===== src/Kcp/Login/Examples.antt =====
-- The handshake over datagrams, with a stand-in for the curve and the hash.
use nicenet.Common.{◌≡◌, refl, arith, true, false, none, some, [], ◌∷◌, ◌++◌, ok}
use nicenet.Handshake.StandIn.{
  word32, word64, crypto, crypto-IsHash, server, different, stand_in-IsKeys,
}
use nicenet.Kcp.{answers, receive}
use nicenet.Kcp.Server.{KcpServer, set_at, init2, init3, on_answer}
use nicenet.Kcp.Login.{Client, greeting, init, client_init}
use nicenet.Kcp.Login.Honest.{kcp_login_lem}

abbrev client : Client
client = record {
  keys = record { private_key = word64 2; public_key = word64 2 };
  uid = [];
  conv = 0;
  serial_id = 0;
  is_init = false;
}

-- The session at handle 0 is new, with the worker 3.
abbrev new_in : KcpServer
new_in = record {
  session = λ h. record { uid = []; serial_id = h; hash = []; endpoint = 5; worker = 3 };
  closed = λ h. false;
  wait_remove = λ h. false;
  pre_sessions = λ e. none;
  sessions = [];
  running_sessions = λ w. [];
  tasks = [];
  jobs = λ w. [];
  dismissed = [];
  readied = [];
}

kcp_login_lem_example :
    let sent = greeting (word64 1) 100 3 ++ (word32 7 ++ word64 1) in
    let greeted = init2 0 (init crypto server 100 0 new_in).1 in
    ((init crypto server 100 0 new_in).0 ≡ some sent)
    × (client_init crypto 900 true 10000 sent client ≡ (
      some (2 ∷ (word64 2 ++ word64 2)),
      10001,
      record client { uid = word64 2; conv = 3; serial_id = 10000; is_init = true },
    ))
    × (receive (λ i. 0) (2 ∷ ((word64 2 ++ word64 2) ++ 9 ∷ [])) 129
        ≡ ok (answers (some (word64 2 ++ word64 2))))
    × (on_answer crypto (word64 1) 5 (some (word64 2 ++ word64 2)) greeted
        ≡ init3 0 (record greeted {
          pre_sessions = set_at 5 none greeted.pre_sessions;
          session = set_at 0 (record (greeted.session 0) { uid = word64 2 }) greeted.session;
        }))
kcp_login_lem_example =
    kcp_login_lem crypto server client 100 900 10000 (word64 1) (word64 2) (9 ∷ []) (λ i. 0) 0
      new_in crypto-IsHash (stand_in-IsKeys (word64 1) refl) (stand_in-IsKeys (word64 2) refl)
      different (omega arith) refl refl
