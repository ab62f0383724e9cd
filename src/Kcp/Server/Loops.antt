-- ===== src/Kcp/Server/Loops.antt =====
-- The turns of the main loop and of the workers keep it.
use nicenet.Common.{
  ℕ, ◌≡◌, refl, sym, subst, Option, none, some, List, [], ◌∷◌, ◌==◌, inl, inr, Bool-cases, All,
  All-append, Bytes,
}
use nicenet.Common.Table.{Table, lookup, insert, erase}
use nicenet.Kcp.Server.{
  Session, KcpServer, Task, Job, adds, removes, readies, starts, stops, set_at, remove_self, close,
  close_found, add_session, run_task, run_job, main_turn, worker_turn,
}
use nicenet.Kcp.Server.Signed.{
  Rules, Inv, IsSigned, TaskOk, JobOk, KeysSigned, insert-KeysSigned, erase-KeysSigned, post_to-Inv,
  add_session-Inv, remove_self_impl-Inv,
}

module _ (env : Rules) where
  close-session : (h : ℕ) (s : KcpServer) → (close h s).session ≡ s.session
  unfolding close remove_self
  close-session h s = elim (Bool-cases (s.wait_remove h)) [ inl e ↦ rw e | inr e ↦ rw e ]

  add_session-session :
      (uid : Bytes) (h : ℕ) (s : KcpServer) (o : Option ℕ)
      → lookup uid s.sessions ≡ o
      → (add_session uid h s).session ≡ s.session
  unfolding add_session close_found
  add_session-session uid h s none e = rw (e, close_found)
  add_session-session uid h s (some old) e = rw (e, close_found) (close-session old s)

  run_task-Inv :
      (t : Task) (s : KcpServer) → TaskOk env s.session t → Inv env s → Inv env (run_task t s)
  unfolding run_task
  run_task-Inv (adds h) s k i =
      let me = s.session h in
      let same = add_session-session me.uid h s (lookup me.uid s.sessions) refl in
      post_to-Inv env me.worker (starts h) (add_session me.uid h s)
        (subst (λ (f : ℕ → Session). IsSigned env (f h).uid) (sym same) k)
        (add_session-Inv env me.uid h s k i)
  run_task-Inv (removes h) s k i = remove_self_impl-Inv env h s i
  run_task-Inv (readies h) s k i = elim (Bool-cases (s.closed h)) [
    | inl e ↦ rw e i
    | inr e ↦ rw e (record {
      hashes = i.hashes;
      tasks_ok = i.tasks_ok;
      jobs_ok = i.jobs_ok;
      table_ok = i.table_ok;
      running_ok = i.running_ok;
    })
  ]

  set_at-KeysSigned :
      (w : ℕ) (t : Table ℕ) (s : KcpServer)
      → KeysSigned env t
      → Inv env s
      → (v : ℕ) → KeysSigned env (set_at w t s.running_sessions v)
  set_at-KeysSigned w t s ok i v = elim (Bool-cases (w == v)) [
    | inl e ↦ rw e ok
    | inr e ↦ rw e (i.running_ok v)
  ]

  run_job-Inv :
      (j : Job) (s : KcpServer) → JobOk env s.session j → Inv env s → Inv env (run_job j s)
  unfolding run_job
  run_job-Inv (starts h) s k i =
      let me = s.session h in
      record {
        hashes = i.hashes;
        tasks_ok = All-append (TaskOk env s.session) s.tasks (readies h ∷ []) i.tasks_ok (tt, tt);
        jobs_ok = i.jobs_ok;
        table_ok = i.table_ok;
        running_ok =
            set_at-KeysSigned me.worker (insert me.uid h (s.running_sessions me.worker)) s
              (insert-KeysSigned env me.uid h (s.running_sessions me.worker) k
                (i.running_ok me.worker))
              i;
      }
  run_job-Inv (stops h) s k i =
      let me = s.session h in
      record {
        hashes = i.hashes;
        tasks_ok = i.tasks_ok;
        jobs_ok = i.jobs_ok;
        table_ok = i.table_ok;
        running_ok =
            set_at-KeysSigned me.worker (erase me.uid (s.running_sessions me.worker)) s
              (erase-KeysSigned env me.uid (s.running_sessions me.worker) (i.running_ok me.worker))
              i;
      }

  pub main_turn-Inv :
      (ts : List Task) (s : KcpServer) → s.tasks ≡ ts → Inv env s → Inv env (main_turn ts s)
  unfolding main_turn
  main_turn-Inv [] s e i = i
  main_turn-Inv (t ∷ ts) s e i =
      let ok = subst (All (TaskOk env s.session)) e i.tasks_ok in
      run_task-Inv t (record s { tasks = ts }) ok.0
        (record {
          hashes = i.hashes;
          tasks_ok = ok.1;
          jobs_ok = i.jobs_ok;
          table_ok = i.table_ok;
          running_ok = i.running_ok;
        })

  pub worker_turn-Inv :
      (w : ℕ) (js : List Job) (s : KcpServer)
      → s.jobs w ≡ js
      → Inv env s
      → Inv env (worker_turn w js s)
  unfolding worker_turn
  worker_turn-Inv w [] s e i = i
  worker_turn-Inv w (j ∷ js) s e i =
      let ok = subst (All (JobOk env s.session)) e (i.jobs_ok w) in
      run_job-Inv j (record s { jobs = set_at w js s.jobs }) ok.0
        (record {
          hashes = i.hashes;
          tasks_ok = i.tasks_ok;
          jobs_ok = λ v. elim (Bool-cases (w == v)) [
            | inl same ↦ rw same (ok.1)
            | inr other ↦ rw other (i.jobs_ok v)
          ];
          table_ok = i.table_ok;
          running_ok = i.running_ok;
        })
