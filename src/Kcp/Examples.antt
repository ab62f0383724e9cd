-- ===== src/Kcp/Examples.antt =====
-- The theorems on the KCP transport at small datagrams.
use nicenet.Common.{
  ◌≤◌, ◌==◌, if◌then◌else◌, ℕ, ◌-◌, ◌<◌, ◌≡◌, ◌⊎◌, refl, arith, true, false, some, [], ◌∷◌, ◌++◌,
  take, Bytes, ok, fault, out_of_bounds,
}
use nicenet.Message.{empty}
use nicenet.Message.Read.{reader}
use nicenet.Kcp.{Peer, Received, reads, stops, hands, receive, client_receive, udp_output}
use nicenet.Common.Table.{Table, lookup}
use nicenet.Common.Text.{bytes_eq}
use nicenet.Kcp.Inputs.{Controls, run_input, run_client_input, got_at, Reaches}
use nicenet.Kcp.Datagrams.{receive-udp_output}
use nicenet.Kcp.Pure.{receive_pure_cases}
use nicenet.Kcp.Silence.{Overdue, wait_at, silence_lem}

abbrev garbage : ℕ → ℕ
garbage i = 204

abbrev eight : ℕ → Bytes
eight b = b ∷ b ∷ b ∷ b ∷ b ∷ b ∷ b ∷ b ∷ []

abbrev uid : Bytes
uid =
    (eight 1 ++ (eight 2 ++ (eight 3 ++ eight 4))) ++ (eight 5 ++ (eight 6 ++ (eight 7 ++ eight 8)))

-- worker 3 and the rest of a KCP header
abbrev segment : Bytes
segment = 3 ∷ 0 ∷ 0 ∷ 0 ∷ 81 ∷ 0 ∷ 0 ∷ 0 ∷ (eight 0 ++ (eight 0 ++ eight 9))

-- the session at the handle 5 runs at worker 3
abbrev running : ℕ → Table ℕ
running w = if w == 3 then (uid, 5) ∷ [] else []

abbrev controls : Controls
controls = record { has_kcp = λ h. true; kcp_update_time = λ h. 0; fed = λ h. [] }

receive-udp_output_example :
    (udp_output uid segment ≡ some (3 ∷ (uid ++ segment)))
    × ((r : Received) × (receive garbage (3 ∷ (uid ++ (segment ++ eight 99))) 97 ≡ ok r)
        × Reaches 1000 (running 3) uid segment controls (run_input 1000 running r controls))
    × ((r : Received) × (client_receive garbage (3 ∷ (uid ++ (segment ++ eight 99))) 97 ≡ ok r)
        × (run_client_input 1000 9 r controls ≡ got_at 1000 9 segment controls))
unfolding lookup bytes_eq
receive-udp_output_example =
    receive-udp_output garbage uid segment (eight 99) 1000 running 9 controls refl (omega arith)
      (omega arith)

-- the length 6 where 8 bytes follow the key
abbrev behind_key : Bytes
behind_key = uid ++ (6 ∷ 0 ∷ 0 ∷ 0 ∷ 1 ∷ 0 ∷ 7 ∷ 7 ∷ [])

receive_pure_cases_example :
    ((6 < 73 - 65) × (receive garbage (4 ∷ behind_key) 73 ≡ ok stops))
    ⊎ ((73 - 65 ≤ 6) × (73 < 6) × (receive garbage (4 ∷ behind_key) 73 ≡ fault out_of_bounds)
        ⊎ (73 - 65 ≤ 6)
          × (6 ≤ 73)
          × (receive garbage (4 ∷ behind_key) 73
              ≡ ok (hands (take 64 behind_key) (reader 6 (take 6 (behind_key ++ 0 ∷ [])) 6))))
receive_pure_cases_example =
    receive_pure_cases garbage behind_key 73 (omega arith) (omega arith) (omega arith)

abbrev heard_at_100 : Peer
heard_at_100 = record {
  framing = record { prev = empty; posted = [] };
  last_ping_time = 100;
  last_pong_time = 100;
  wait_remove = false;
}

silence_lem_example :
    (Overdue 100 (103 ∷ 105 ∷ 106 ∷ 107 ∷ [])
      × (wait_at garbage 9 (103 ∷ 105 ∷ 106 ∷ 107 ∷ []) heard_at_100
          ≡ reads (record heard_at_100 { wait_remove = true })))
    ⊎ ((Overdue 100 (103 ∷ 105 ∷ 106 ∷ 107 ∷ []) → ⊥)
        × (wait_at garbage 9 (103 ∷ 105 ∷ 106 ∷ 107 ∷ []) heard_at_100 ≡ reads heard_at_100))
silence_lem_example =
    silence_lem garbage 9 (103 ∷ 105 ∷ 106 ∷ 107 ∷ []) heard_at_100 refl (omega arith)
