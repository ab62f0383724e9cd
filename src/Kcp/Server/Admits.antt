-- ===== src/Kcp/Server/Admits.antt =====
-- Whom a `KcpServer` has a session for.
use nicenet.Common.{
  ℕ, ◌≡◌, refl, subst, arith, true, Option, none, some, List, [], ◌∷◌, ◌==◌, inl, inr, Bool-cases,
  All-append, All-mono, Bytes, take,
}
use nicenet.Common.Text.{bytes_eq}
use nicenet.Handshake.{Crypto, part, public_key_size}
use nicenet.Kcp.{check_sign}
use nicenet.Kcp.Server.{
  KcpServer, Task, Job, adds, removes, readies, starts, stops, set_at, init2, init2_timeout, init3,
  remove_self, close, Turn, of_main, of_worker, turn, accept_answer, on_answer,
}
use nicenet.Kcp.Server.Signed.{
  Rules, Inv, IsSigned, TaskOk, JobOk, KeysSigned, empty-KeysSigned, remove_self-Inv, close-Inv,
}
use nicenet.Kcp.Server.Loops.{main_turn-Inv, worker_turn-Inv}

-- What happens to the server: turns of its loops, datagrams with an answer, the two ends of a
-- waiting session, and sessions that close or remove themselves.
pub data Event : Type 0 where
  turns_of : Turn → Event
  answers_from : ℕ → Option Bytes → Event
  greets forgets closes leaves : ℕ → Event

unfoldable pub after : Crypto → Bytes → Event → KcpServer → KcpServer
unfolding turn on_answer close remove_self
after crypto server_key (turns_of t) s = turn t s
after crypto server_key (answers_from sender received) s =
    on_answer crypto server_key sender received s
after crypto server_key (greets h) s = init2 h s
after crypto server_key (forgets h) s = init2_timeout h s
after crypto server_key (closes h) s = close h s
after crypto server_key (leaves h) s = remove_self h s

unfoldable pub after_all : Crypto → Bytes → List Event → KcpServer → KcpServer
unfolding after
after_all crypto server_key [] s = s
after_all crypto server_key (e ∷ es) s =
    after_all crypto server_key es (after crypto server_key e s)

module _ (env : Rules) where
  -- A session that has been given a key.
  abbrev keyed : ℕ → Bytes → KcpServer → KcpServer
  keyed h k s = record s { session = set_at h (record (s.session h) { uid = k }) s.session }

  module _ (h : ℕ) (k : Bytes) (s : KcpServer) (g : IsSigned env k) (i : Inv env s) where
    keyed-hash : (j : ℕ) → ((keyed h k s).session j).hash ≡ env.hash j
    keyed-hash j = elim (Bool-cases (h == j)) [
      | inl e ↦ ground (arith, i.hashes h, i.hashes j)
      | inr e ↦ rw e (i.hashes j)
    ]

    keyed-IsSigned :
        (j : ℕ) → IsSigned env (s.session j).uid → IsSigned env ((keyed h k s).session j).uid
    keyed-IsSigned j o = elim (Bool-cases (h == j)) [ inl e ↦ rw e g | inr e ↦ rw e o ]

    keyed-TaskOk : (t : Task) → TaskOk env s.session t → TaskOk env (keyed h k s).session t
    keyed-TaskOk (adds j) o = keyed-IsSigned j o
    keyed-TaskOk (removes j) o = tt
    keyed-TaskOk (readies j) o = tt

    keyed-JobOk : (j : Job) → JobOk env s.session j → JobOk env (keyed h k s).session j
    keyed-JobOk (starts j) o = keyed-IsSigned j o
    keyed-JobOk (stops j) o = tt

    -- what `init3` does to a session whose answer is signed
    init3-Inv : Inv env (init3 h (keyed h k s))
    init3-Inv =
        let me : IsSigned env ((keyed h k s).session h).uid = ground (arith, g) in
        record {
          hashes = keyed-hash;
          tasks_ok =
              All-append (TaskOk env (keyed h k s).session) s.tasks (adds h ∷ [])
                (All-mono keyed-TaskOk s.tasks i.tasks_ok) (me, tt);
          jobs_ok = λ w. All-mono keyed-JobOk (s.jobs w) (i.jobs_ok w);
          table_ok = i.table_ok;
          running_ok = i.running_ok;
        }

  with_pre :
      (f : ℕ → Option ℕ) (s : KcpServer) → Inv env s → Inv env (record s { pre_sessions = f })
  with_pre f s i = record {
    hashes = i.hashes;
    tasks_ok = i.tasks_ok;
    jobs_ok = i.jobs_ok;
    table_ok = i.table_ok;
    running_ok = i.running_ok;
  }

  accept_answer-Inv :
      (received : Option Bytes) (o : Option ℕ) (s : KcpServer)
      → Inv env s
      → Inv env (accept_answer env.crypto env.server_key received o s)
  unfolding accept_answer check_sign
  accept_answer-Inv (some r) (some h) s i =
      let me = s.session h in
      let key = take public_key_size r in
      let sign = part public_key_size 64 r in
      elim (Bool-cases (bytes_eq env.server_key key)) [
        | inl own ↦ rw own i
        | inr foreign ↦ elim (Bool-cases (env.crypto.verify key me.hash sign)) [
          | inl e ↦ rw foreign (
              rw e (
                init3-Inv h key s
                  (record {
                    foreign = foreign;
                    greeted = h;
                    signature = sign;
                    verified =
                        subst (λ (x : Bytes). env.crypto.verify key x sign ≡ true) (i.hashes h) e;
                  })
                  i))
          | inr e ↦ rw foreign (rw e i)
        ]
      ]
  accept_answer-Inv (some r) none s i = i
  accept_answer-Inv none o s i = i

  after-Inv :
      (e : Event) (s : KcpServer) → Inv env s → Inv env (after env.crypto env.server_key e s)
  unfolding after turn on_answer
  after-Inv (turns_of of_main) s i = main_turn-Inv env s.tasks s refl i
  after-Inv (turns_of (of_worker w)) s i = worker_turn-Inv env w (s.jobs w) s refl i
  after-Inv (answers_from sender received) s i =
      accept_answer-Inv received (s.pre_sessions sender)
        (record s { pre_sessions = set_at sender none s.pre_sessions })
        (with_pre (set_at sender none s.pre_sessions) s i)
  after-Inv (greets h) s i = with_pre (set_at (s.session h).endpoint (some h) s.pre_sessions) s i
  after-Inv (forgets h) s i = with_pre (set_at (s.session h).endpoint none s.pre_sessions) s i
  after-Inv (closes h) s i = close-Inv env h s i
  after-Inv (leaves h) s i = remove_self-Inv env h s i

  after_all-Inv :
      (es : List Event) (s : KcpServer)
      → Inv env s
      → Inv env (after_all env.crypto env.server_key es s)
  unfolding after_all
  after_all-Inv [] s i = i
  after_all-Inv (e ∷ es) s i =
      after_all-Inv es (after env.crypto env.server_key e s) (after-Inv e s i)

-- A server with no session and nothing posted.
pub record IsIdle (s : KcpServer) : Type 0 where
  pub no_tasks : s.tasks ≡ []
  pub no_jobs : (w : ℕ) → s.jobs w ≡ []
  pub no_sessions : s.sessions ≡ []
  pub no_running : (w : ℕ) → s.running_sessions w ≡ []

-- From a server with no session, whose session objects have the hashes of their greetings, whatever
-- datagrams come and in whatever order the loops run, every key under which the server or one
-- of its workers has a session is another than the server's own, and a signature of the hash of
-- one of the server's greetings verifies under it.
pub after_all-KeysSigned :
    (crypto : Crypto) (server_key : Bytes) (es : List Event) (s : KcpServer)
    → IsIdle s
    → let env : Rules = record {
      crypto = crypto;
      server_key = server_key;
      hash = λ h. (s.session h).hash;
    } in
      let last = after_all crypto server_key es s in
      KeysSigned env last.sessions × ((w : ℕ) → KeysSigned env (last.running_sessions w))
after_all-KeysSigned crypto server_key es s q =
    let env : Rules = record {
      crypto = crypto;
      server_key = server_key;
      hash = λ h. (s.session h).hash;
    } in
    let first : Inv env s = record {
      hashes = λ h. refl;
      tasks_ok = rw (q.no_tasks) tt;
      jobs_ok = λ w. rw (q.no_jobs w) tt;
      table_ok = empty-KeysSigned env s.sessions q.no_sessions;
      running_ok = λ w. empty-KeysSigned env (s.running_sessions w) (q.no_running w);
    } in
    let last = after_all-Inv env es s first in (last.table_ok, last.running_ok)
