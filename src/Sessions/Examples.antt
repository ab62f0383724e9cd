-- ===== src/Sessions/Examples.antt =====
-- The theorems on sessions at a client that connects twice.
use nicenet.Common.{◌≡◌, ◌∷◌, refl, true, [], inl}
use nicenet.Common.Text.{codes}
use nicenet.Sessions.{TcpServer, add_session, remove_self_impl}
use nicenet.Sessions.Refines.{view, run, joining, leaving, run_directory, badges, view-run}
use nicenet.Sessions.Reach.{start, joins, leaves, IsCurrent, Reach-IsCurrent}

-- Handle `h` is the session with the serial number 10000 + h of the client "k".
abbrev fresh : TcpServer
fresh = record {
  session = λ h. record { uid = codes "k"; serial_id = h; is_open = true };
  sessions = [];
}

abbrev first_in : TcpServer
first_in = add_session (fresh.session 0).uid 0 fresh

abbrev second_in : TcpServer
second_in = add_session (first_in.session 1).uid 1 first_in

Reach-IsCurrent_example : IsCurrent 1 (remove_self_impl 0 second_in)
Reach-IsCurrent_example =
    Reach-IsCurrent {first = fresh} 1 (leaves 0 (joins 1 (joins 0 start))) (inl refl)

view-run_example :
    view (run (joining 0 ∷ joining 1 ∷ leaving 0 ∷ []) fresh)
    ≡ run_directory (badges fresh) (joining 0 ∷ joining 1 ∷ leaving 0 ∷ []) (view fresh)
view-run_example = view-run (joining 0 ∷ joining 1 ∷ leaving 0 ∷ []) fresh
