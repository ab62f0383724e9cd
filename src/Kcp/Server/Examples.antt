-- ===== src/Kcp/Server/Examples.antt =====
-- The theorems on a `KcpServer` at two sessions of one client.
use nicenet.Common.{ℕ, ◌≡◌, refl, true, false, none, some, [], ◌∷◌, ◌==◌, if◌then◌else◌}
use nicenet.Common.Text.{codes, bytes_eq}
use nicenet.Common.Table.{lookup}
use nicenet.Handshake.{Crypto}
use nicenet.Kcp.Server.{KcpServer, init3, of_main, of_worker, turns}
use nicenet.Kcp.Server.Relogin.{IsRelogin, relogin_lem}
use nicenet.Kcp.Server.Signed.{Rules, KeysSigned}
use nicenet.Kcp.Server.Admits.{
  turns_of, answers_from, greets, IsIdle, after_all, after_all-KeysSigned,
}

-- Handle `h` is a session of the client "k" with the number `h`, and the worker 3.
abbrev nobody_in : KcpServer
nobody_in = record {
  session =
      λ h. record { uid = codes "k"; serial_id = h; hash = codes "x"; endpoint = 7; worker = 3 };
  closed = λ h. false;
  wait_remove = λ h. false;
  pre_sessions = λ e. none;
  sessions = [];
  running_sessions = λ w. [];
  tasks = [];
  jobs = λ w. [];
  dismissed = [];
  readied = [];
}

abbrev first_in : KcpServer
first_in = record nobody_in {
  sessions = (codes "k", 0) ∷ [];
  running_sessions = λ w. if w == 3 then (codes "k", 0) ∷ [] else [];
}

first_in-IsRelogin : IsRelogin 0 1 first_in
unfolding lookup bytes_eq
first_in-IsRelogin = record {
  known = refl;
  same_key = refl;
  serial = refl;
  no_tasks = refl;
  no_jobs = λ w. refl;
  staying = refl;
}

relogin_lem_example :
    let after = turns (of_main ∷ of_main ∷ of_worker 3 ∷ of_worker 3 ∷ []) (init3 1 first_in) in
    (lookup (codes "k") after.sessions ≡ some 1)
    × (lookup (codes "k") (after.running_sessions 3) ≡ none)
    × (lookup (codes "k") (after.running_sessions 3) ≡ none)
relogin_lem_example = relogin_lem 0 1 first_in first_in-IsRelogin

abbrev lenient : Crypto
lenient = record { sha3 = λ x. x; sign = λ k h. some h; verify = λ k h s. true }

nobody_in-IsIdle : IsIdle nobody_in
nobody_in-IsIdle = record {
  no_tasks = refl;
  no_jobs = λ w. refl;
  no_sessions = refl;
  no_running = λ w. refl;
}

abbrev rules : Rules
rules = record { crypto = lenient; server_key = codes "s"; hash = λ h. codes "x" }

after_all-KeysSigned_example :
    let last =
      after_all lenient
        (codes "s")
        (greets 0
          ∷ answers_from 7 (some (codes "k"))
          ∷ turns_of of_main
          ∷ turns_of (of_worker 3)
          ∷ [])
        nobody_in in
    KeysSigned rules last.sessions × ((w : ℕ) → KeysSigned rules (last.running_sessions w))
after_all-KeysSigned_example =
    after_all-KeysSigned lenient (codes "s")
      (greets 0
        ∷ answers_from 7 (some (codes "k"))
        ∷ turns_of of_main
        ∷ turns_of (of_worker 3)
        ∷ [])
      nobody_in nobody_in-IsIdle
