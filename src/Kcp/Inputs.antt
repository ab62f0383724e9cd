-- ===== src/Kcp/Inputs.antt =====
-- What becomes of the data that a datagram of the kind 3 brings: at a server the function that the
-- handler posts to the worker, at a client the rest of the branch. `ikcp_input` is the KCP
-- library's; what it was given is kept.
use nicenet.Common.{
  ◌⊎◌, inl, inr, Bool-cases, false, ℕ, Bool, true, Option, none, some, List, [], ◌∷◌, ◌++◌, ◌==◌,
  if◌then◌else◌, Bytes, ◌≡◌, ap, refl,
}
use nicenet.Common.Table.{Table, lookup}
use nicenet.Kcp.{Received, inputs}
use nicenet.Kcp.Server.{set_at}

-- The sessions, by the handles of their shared pointers: whether `m_kcp` is set,
-- `m_kcpUpdateTime`, and what `ikcp_input` got for them, in order.
pub record Controls : Type 0 where
  pub has_kcp : ℕ → Bool
  pub kcp_update_time : ℕ → ℕ
  pub fed : ℕ → List Bytes

-- `ikcp_input` for the session at `h`
unfoldable pub feed : ℕ → Bytes → Controls → Controls
feed h bytes c = record c { fed = set_at h (c.fed h ++ bytes ∷ []) c.fed }

unfoldable feed_found : ℕ → Bytes → Option ℕ → Controls → Controls
unfolding feed
feed_found now bytes none c = c
feed_found now bytes (some h) c =
    let c' = feed h bytes c in
    if c.has_kcp h then record c' { kcp_update_time = set_at h now c.kcp_update_time } else c

-- The posted function at the time `now`, with `m_RunningSessions` of the workers. A table holds no
-- null pointer.
unfoldable pub run_input : ℕ → (ℕ → Table ℕ) → Received → Controls → Controls
unfolding feed_found
run_input now running (inputs worker uid bytes) c =
    feed_found now bytes (lookup uid (running worker)) c
run_input now running r c = c

-- The client's branch, with the handle of its one session.
unfoldable pub run_client_input : ℕ → ℕ → Received → Controls → Controls
unfolding feed
run_client_input now self (inputs worker uid bytes) c =
    let c' = feed self bytes c in record c' { kcp_update_time = set_at self now c.kcp_update_time }
run_client_input now self r c = c

-- The session at `h` has got `bytes` behind what it had, at the time `now`, and the others nothing.
abbrev pub got_at : ℕ → ℕ → Bytes → Controls → Controls
got_at now h bytes c = record {
  has_kcp = c.has_kcp;
  kcp_update_time = λ j. if h == j then now else c.kcp_update_time j;
  fed = λ j. if h == j then c.fed h ++ bytes ∷ [] else c.fed j;
}

-- What the data does, with `table` the running sessions of the worker: the session under the uid
-- gets it if it has an `m_kcp`; without one, or without a session, nothing changes.
abbrev pub Reaches : ℕ → Table ℕ → Bytes → Bytes → Controls → Controls → Type 0
Reaches now table uid bytes before after =
    ((h : ℕ) × (lookup uid table ≡ some h)
      × (before.has_kcp h ≡ true)
      × (after ≡ got_at now h bytes before))
    ⊎ (((h : ℕ) × (lookup uid table ≡ some h) × (before.has_kcp h ≡ false) × (after ≡ before))
        ⊎ (lookup uid table ≡ none) × (after ≡ before))

feed_found-Reaches :
    (now : ℕ) (table : Table ℕ) (uid bytes : Bytes) (o : Option ℕ) (c : Controls)
    → lookup uid table ≡ o
    → Reaches now table uid bytes c (feed_found now bytes o c)
unfolding feed_found feed
feed_found-Reaches now table uid bytes none c e = inr (inr (e, refl))
feed_found-Reaches now table uid bytes (some h) c e = elim (Bool-cases (c.has_kcp h)) [
  | inl ready ↦ inl (h, e, ready, ap (λ (b : Bool). if b then got_at now h bytes c else c) ready)
  | inr unready ↦
      inr (inl (h, e, unready, ap (λ (b : Bool). if b then got_at now h bytes c else c) unready))
]

pub run_input-Reaches :
    (now : ℕ) (running : ℕ → Table ℕ) (worker : ℕ) (uid bytes : Bytes) (c : Controls)
    → Reaches now (running worker) uid bytes c (run_input now running (inputs worker uid bytes) c)
unfolding run_input
run_input-Reaches now running worker uid bytes c =
    feed_found-Reaches now (running worker) uid bytes (lookup uid (running worker)) c refl
