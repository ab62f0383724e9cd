-- ===== src/Kcp/Server/Signed.antt =====
-- What holds of the sessions of a `KcpServer` at every time, and what keeps it.
use nicenet.Common.{
  ℕ, ◌≡◌, subst, arith, true, false, Option, none, some, [], ◌∷◌, ◌==◌, inl, inr, Bool-cases, All,
  All-append, Bytes,
}
use nicenet.Common.Text.{bytes_eq}
use nicenet.Common.Table.{Table, lookup, insert, erase, lookup-insert, lookup-erase, bytes_eq_iff}
use mathlib.Core.Option.{none-ne-some}
use nicenet.Handshake.{Crypto}
use nicenet.Kcp.Server.{
  Session, KcpServer, Task, Job, adds, removes, starts, stops, set_at, post_to, remove_self, close,
  close_found, add_session, remove_found, remove_session, remove_self_impl,
}

-- What the keys are measured by: the hash and curve, the server's key, and the hashes of the
-- greetings.
pub record Rules : Type 0 where
  pub crypto : Crypto
  pub server_key : Bytes
  pub hash : ℕ → Bytes

module _ (env : Rules) where
  -- The key is not the server's, and a signature of one of the hashes verifies under it.
  pub record IsSigned (k : Bytes) : Type 0 where
    pub foreign : bytes_eq env.server_key k ≡ false
    pub greeted : ℕ
    pub signature : Bytes
    pub verified : env.crypto.verify k (env.hash greeted) signature ≡ true

  abbrev pub TaskOk : (ℕ → Session) → Task → Type 0
  TaskOk session (adds h) = IsSigned (session h).uid
  TaskOk session _ = Unit

  abbrev pub JobOk : (ℕ → Session) → Job → Type 0
  JobOk session (starts h) = IsSigned (session h).uid
  JobOk session _ = Unit

  abbrev pub KeysSigned : Table ℕ → Type 0
  KeysSigned t = (k : Bytes) (h : ℕ) → lookup k t ≡ some h → IsSigned k

  pub record Inv (s : KcpServer) : Type 0 where
    pub hashes : (h : ℕ) → (s.session h).hash ≡ env.hash h
    pub tasks_ok : All (TaskOk s.session) s.tasks
    pub jobs_ok : (w : ℕ) → All (JobOk s.session) (s.jobs w)
    pub table_ok : KeysSigned s.sessions
    pub running_ok : (w : ℕ) → KeysSigned (s.running_sessions w)

  pub empty-KeysSigned : (t : Table ℕ) → t ≡ [] → KeysSigned t
  unfolding lookup
  empty-KeysSigned t e k h f =
      absurd (none-ne-some h (subst (λ (x : Table ℕ). lookup k x ≡ some h) e f))

  pub insert-KeysSigned :
      (k : Bytes) (h : ℕ) (t : Table ℕ) → IsSigned k → KeysSigned t → KeysSigned (insert k h t)
  insert-KeysSigned k h t i ok j g e = elim (Bool-cases (bytes_eq k j)) [
    | inl same ↦ subst IsSigned ((bytes_eq_iff k j).0 same) i
    | inr other ↦ ok j g ground (arith, lookup-insert k j h t)
  ]

  pub erase-KeysSigned : (k : Bytes) (t : Table ℕ) → KeysSigned t → KeysSigned (erase k t)
  erase-KeysSigned k t ok j g e = ok j g ground (arith, lookup-erase k j t)

  pub remove_self-Inv : (h : ℕ) (s : KcpServer) → Inv s → Inv (remove_self h s)
  unfolding remove_self
  remove_self-Inv h s i = elim (Bool-cases (s.wait_remove h)) [
    | inl e ↦ rw e i
    | inr e ↦ rw e (record {
      hashes = i.hashes;
      tasks_ok = All-append (TaskOk s.session) s.tasks (removes h ∷ []) i.tasks_ok (tt, tt);
      jobs_ok = i.jobs_ok;
      table_ok = i.table_ok;
      running_ok = i.running_ok;
    })
  ]

  pub close-Inv : (h : ℕ) (s : KcpServer) → Inv s → Inv (close h s)
  unfolding close
  close-Inv h s i =
      remove_self-Inv h (record s { closed = set_at h true s.closed })
        (record {
          hashes = i.hashes;
          tasks_ok = i.tasks_ok;
          jobs_ok = i.jobs_ok;
          table_ok = i.table_ok;
          running_ok = i.running_ok;
        })

  with_table :
      (t : Table ℕ) (s : KcpServer) → KeysSigned t → Inv s → Inv (record s { sessions = t })
  with_table t s ok i = record {
    hashes = i.hashes;
    tasks_ok = i.tasks_ok;
    jobs_ok = i.jobs_ok;
    table_ok = ok;
    running_ok = i.running_ok;
  }

  pub post_to-Inv :
      (w : ℕ) (j : Job) (s : KcpServer) → JobOk s.session j → Inv s → Inv (post_to w j s)
  post_to-Inv w j s ok i = record {
    hashes = i.hashes;
    tasks_ok = i.tasks_ok;
    jobs_ok = λ v. elim (Bool-cases (w == v)) [
      | inl e ↦ rw e (All-append (JobOk s.session) (s.jobs w) (j ∷ []) (i.jobs_ok w) (ok, tt))
      | inr e ↦ rw e (i.jobs_ok v)
    ];
    table_ok = i.table_ok;
    running_ok = i.running_ok;
  }

  close_found-Inv : (o : Option ℕ) (s : KcpServer) → Inv s → Inv (close_found o s)
  unfolding close_found
  close_found-Inv none s i = i
  close_found-Inv (some h) s i = close-Inv h s i

  pub add_session-Inv :
      (uid : Bytes) (h : ℕ) (s : KcpServer) → IsSigned uid → Inv s → Inv (add_session uid h s)
  unfolding add_session
  add_session-Inv uid h s k i =
      let s' = close_found (lookup uid s.sessions) s in
      let i' = close_found-Inv (lookup uid s.sessions) s i in
      with_table (insert uid h s'.sessions) s' (insert-KeysSigned uid h s'.sessions k i'.table_ok)
        i'

  remove_found-Inv :
      (uid : Bytes) (serial : ℕ) (o : Option ℕ) (s : KcpServer)
      → Inv s
      → Inv (remove_found uid serial o s)
  unfolding remove_found
  remove_found-Inv uid serial none s i = i
  remove_found-Inv uid serial (some h) s i =
      let s' = close h s in
      let i' = close-Inv h s i in
      elim (Bool-cases ((s.session h).serial_id == serial)) [
        | inl e ↦ rw e (
            with_table (erase uid s'.sessions) s' (erase-KeysSigned uid s'.sessions i'.table_ok) i')
        | inr e ↦ rw e i
      ]

  pub remove_self_impl-Inv : (h : ℕ) (s : KcpServer) → Inv s → Inv (remove_self_impl h s)
  unfolding remove_self_impl remove_session
  remove_self_impl-Inv h s i =
      let me = s.session h in
      let s' = remove_found me.uid me.serial_id (lookup me.uid s.sessions) s in
      post_to-Inv me.worker (stops h) s' tt
        (remove_found-Inv me.uid me.serial_id (lookup me.uid s.sessions) s i)
