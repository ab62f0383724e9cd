-- ===== src/Kcp/Datagrams.antt =====
-- What the receive handlers make of the datagrams that the program itself sends, and of others.
use nicenet.Common.{
  ℕ, suc, ◌+◌, ◌-◌, ◌≤◌, ◌<◌, ◌≡◌, refl, sym, ap, arith, some, ◌∷◌, ◌++◌, le→leb, lt→ltb, le→ltb,
  length, take, take-append, drop-append, take_all, Bytes, of_le, ok,
}
use nicenet.Common.Text.{bytes_eq}
use nicenet.Common.Table.{Table}
use nicenet.Message.{Message}
use nicenet.Kcp.{
  Received, inputs, ignores, receive, client_receive, receive_input, udp_output, pure_datagram,
}
use nicenet.Kcp.Inputs.{
  Controls, feed, run_input, run_client_input, got_at, Reaches, run_input-Reaches,
}

udp_output_lem : (uid buf : Bytes) → length uid ≡ 64 → udp_output uid buf ≡ some (3 ∷ (uid ++ buf))
unfolding udp_output
udp_output_lem uid buf h =
    rw (le→ltb (length uid) 64 (omega arith)) (rw (take_all 64 uid (omega arith)) refl)

receive_input_lem :
    (uid buf stale : Bytes)
    → length uid ≡ 64
    → of_le (take 2 (buf ++ stale)) < 8
    → receive_input (3 ∷ (uid ++ (buf ++ stale))) (65 + length buf)
      ≡ inputs (of_le (take 2 (buf ++ stale))) uid buf
unfolding receive_input
receive_input_lem uid buf stale h few = rw (drop-append 64 uid (buf ++ stale) (sym h)) (
    rw (lt→ltb (of_le (take 2 (buf ++ stale))) 8 few) (
      rw (take-append 64 uid (buf ++ stale) (sym h)) (
        rw (let e : 65 + length buf - 1 - 64 ≡ length buf = omega arith in e)
          (rw (take-append (length buf) buf stale refl) refl))))

-- What `udpOutput` sends for a session with a uid of 64 bytes is handed on as it was, whatever
-- earlier datagrams left in the buffer. At a server `ikcp_input` gets it for the session that runs
-- under the uid at the worker that its first two bytes name, if there is one and its `m_kcp` is set,
-- and nothing changes if not; at a client `ikcp_input` gets it for the client's session. The time of
-- that session is set, and no other session gets anything. KCP's own header takes at least 24 bytes
-- and starts with the number of the worker, which is below WORK_THREAD_COUNT.
pub receive-udp_output :
    (garbage : ℕ → ℕ) (uid buf stale : Bytes) (now : ℕ) (running : ℕ → Table ℕ) (self : ℕ)
    (c : Controls)
    → length uid ≡ 64
    → 24 ≤ length buf
    → of_le (take 2 (buf ++ stale)) < 8
    → (udp_output uid buf ≡ some (3 ∷ (uid ++ buf)))
      × ((r : Received) × (receive garbage (3 ∷ (uid ++ (buf ++ stale))) (65 + length buf) ≡ ok r)
          × Reaches now
              (running (of_le (take 2 (buf ++ stale))))
              uid
              buf
              c
              (run_input now running r c))
      × ((r : Received) × (client_receive garbage (3 ∷ (uid ++ (buf ++ stale))) (65 + length buf)
            ≡ ok r)
          × (run_client_input now self r c ≡ got_at now self buf c))
unfolding receive client_receive bytes_eq run_client_input feed
receive-udp_output garbage uid buf stale now running self c sized long few =
    let enough = le→leb 89 (65 + length buf) (omega arith) in
    let input = receive_input_lem uid buf stale sized few in
    let worker = of_le (take 2 (buf ++ stale)) in
    (
      udp_output_lem uid buf sized,
      (
        inputs worker uid buf,
        rw enough (ap (λ (r : Received). ok r) input),
        run_input-Reaches now running worker uid buf c,
      ),
      (inputs worker uid buf, rw enough (ap (λ (r : Received). ok r) input), refl),
    )

-- A message of up to 64 bytes that is sent outside the KCP stream is ignored where it arrives.
pub receive-pure_datagram :
    (garbage : ℕ → ℕ) (msg : Message) (bytes stale : Bytes)
    → pure_datagram msg ≡ ok (4 ∷ bytes)
    → length bytes ≤ 64
    → (receive garbage (4 ∷ (bytes ++ stale)) (suc (length bytes)) ≡ ok ignores)
      × (client_receive garbage (4 ∷ (bytes ++ stale)) (suc (length bytes)) ≡ ok ignores)
unfolding receive client_receive bytes_eq
receive-pure_datagram garbage msg bytes stale sent short =
    let few = le→ltb 65 (suc (length bytes)) (omega arith) in (rw few refl, rw few refl)
