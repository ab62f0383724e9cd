-- ===== src/Kcp/Server/Relogin.antt =====
-- A client that comes again while its old session is still there.
use nicenet.Common.{
  List, ◌∙◌, ap, inl, inr, Bool-cases, ℕ, ◌≡◌, arith, true, false, none, some, [], ◌∷◌, ◌++◌, ◌==◌,
  if◌then◌else◌, Bytes,
}
use nicenet.Common.Table.{Table, lookup, insert, erase, lookup-insert, lookup-erase, bytes_eq_iff}
use nicenet.Kcp.Server.{
  Session, KcpServer, Job, removes, readies, starts, stops, set_at, init3, remove_self, close,
  close_found, add_session, remove_found, remove_session, remove_self_impl, run_task, run_job,
  dismiss, of_main, of_worker, main_turn, worker_turn, turn, turns,
}

inserted : (k : Bytes) (h : ℕ) (t : Table ℕ) → lookup k (insert k h t) ≡ some h
inserted k h t = ground (arith, lookup-insert k k h t, bytes_eq_iff k k)

erased : (k : Bytes) (t : Table ℕ) → lookup k (erase k t) ≡ none
erased k t = ground (arith, lookup-erase k k t, bytes_eq_iff k k)

-- The session at `new` has answered, and the table still has the session at `old` under its key.
pub record IsRelogin (old new : ℕ) (s : KcpServer) : Type 0 where
  pub known : lookup (s.session new).uid s.sessions ≡ some old
  pub same_key : (s.session old).uid ≡ (s.session new).uid
  pub serial : ((s.session new).serial_id == (s.session old).serial_id) ≡ false
  pub no_tasks : s.tasks ≡ []
  pub no_jobs : (w : ℕ) → s.jobs w ≡ []
  pub staying : s.wait_remove old ≡ false

module _ (old new : ℕ) (s : KcpServer) (r : IsRelogin old new s) where
  abbrev me : Session
  me = s.session new

  -- after the first task: the old session is closed
  abbrev added : KcpServer
  added = record s {
    closed = set_at old true s.closed;
    wait_remove = set_at old true s.wait_remove;
    sessions = insert me.uid new s.sessions;
    tasks = removes old ∷ [];
    jobs = set_at me.worker (starts new ∷ []) s.jobs;
  }

  add_turn : turn of_main (init3 new s) ≡ added
  unfolding turn main_turn run_task add_session close_found close remove_self
  add_turn =
      rw (r.no_tasks, main_turn)
        (rw (r.known, close_found) (rw (r.staying) (rw (r.no_jobs me.worker))))

  -- after the second: the old session leaves the table to the new one
  abbrev removed : KcpServer
  removed =
      let w = (s.session old).worker in
      record added { tasks = []; jobs = set_at w (added.jobs w ++ stops old ∷ []) added.jobs }

  remove_turn : turn of_main added ≡ removed
  unfolding turn main_turn run_task remove_self_impl remove_session remove_found
  remove_turn = rw (r.same_key) (rw (inserted me.uid new s.sessions, remove_found) (rw (r.serial)))

  -- after the worker of the new session has put it among its running sessions
  abbrev started : List Job → KcpServer
  started js = record removed {
    tasks = readies new ∷ [];
    jobs = set_at me.worker js removed.jobs;
    dismissed = dismiss (lookup me.uid (s.running_sessions me.worker)) s.session s.dismissed;
    running_sessions =
        set_at me.worker (insert me.uid new (s.running_sessions me.worker)) s.running_sessions;
  }

  start_turn :
      (js : List Job)
      → removed.jobs me.worker ≡ starts new ∷ js
      → turn (of_worker me.worker) removed ≡ started js
  unfolding turn worker_turn run_job dismiss
  start_turn js e = rw (e, worker_turn)

  -- after the worker of the old session has run `removeSelfImpl`'s part
  abbrev stopped : KcpServer → KcpServer
  stopped t =
      let w = (s.session old).worker in
      record t {
        jobs = set_at w [] t.jobs;
        running_sessions = set_at w (erase me.uid (t.running_sessions w)) t.running_sessions;
      }

  stop_turn :
      (js : List Job)
      → (started js).jobs (s.session old).worker ≡ stops old ∷ []
      → turn (of_worker (s.session old).worker) (started js) ≡ stopped (started js)
  unfolding turn worker_turn run_job
  stop_turn js e = rw (e, worker_turn) (rw (r.same_key))

  -- what the worker of the new session has behind its start
  abbrev behind : List Job
  behind = if (s.session old).worker == me.worker then stops old ∷ [] else []

  removed_jobs : removed.jobs me.worker ≡ starts new ∷ behind
  removed_jobs = elim (Bool-cases ((s.session old).worker == me.worker)) [
    | inl e ↦ ground (arith, e, r.no_jobs me.worker)
    | inr e ↦ ground (arith, e, r.no_jobs me.worker)
  ]

  started_jobs : (started behind).jobs (s.session old).worker ≡ stops old ∷ []
  started_jobs = elim (Bool-cases ((s.session old).worker == me.worker)) [
    | inl e ↦ ground (arith, e, r.no_jobs (s.session old).worker)
    | inr e ↦ ground (arith, e, r.no_jobs (s.session old).worker)
  ]

  relogin_turns :
      turns
        (of_main ∷ of_main ∷ of_worker me.worker ∷ of_worker (s.session old).worker ∷ [])
        (init3 new s)
      ≡ stopped (started behind)
  unfolding turns
  relogin_turns =
      let v = me.worker in
      let w = (s.session old).worker in
      ap (λ (t : KcpServer). turn (of_worker w) (turn (of_worker v) (turn of_main t))) add_turn
      ∙ ap (λ (t : KcpServer). turn (of_worker w) (turn (of_worker v) t)) remove_turn
      ∙ ap (turn (of_worker w)) (start_turn behind removed_jobs)
      ∙ stop_turn behind started_jobs

-- A client that comes again while its old session is in the table, with another serial number and
-- not about to be removed, and nothing else is posted: the main loop runs what `init3` and
-- `close` post, then the worker of the new session and that of the old one what was posted to
-- them, from the front of each queue. The server then has the new session under the key. The old
-- worker runs no session of that key: if the new session was given the same worker, it is not
-- running either, since `removeSelfImpl` of the old one has erased it; on another worker it runs.
pub relogin_lem :
    (old new : ℕ) (s : KcpServer)
    → IsRelogin old new s
    → let me = s.session new in
      let w = (s.session old).worker in
      let after =
        turns (of_main ∷ of_main ∷ of_worker me.worker ∷ of_worker w ∷ []) (init3 new s) in
      (lookup me.uid after.sessions ≡ some new)
      × (lookup me.uid (after.running_sessions w) ≡ none)
      × (lookup me.uid (after.running_sessions me.worker)
          ≡ (if w == me.worker then none else some new))
relogin_lem old new s r =
    let me = s.session new in
    let w = (s.session old).worker in
    let put = insert me.uid new (s.running_sessions me.worker) in
    let cut = erased me.uid (set_at me.worker put s.running_sessions w) in
    let kept = inserted me.uid new (s.running_sessions me.worker) in
    rw (relogin_turns old new s r)
      (inserted me.uid new s.sessions, ground (arith, cut), ground (arith, cut, kept))
