-- ===== src/Kcp/Server.antt =====
-- Kcp.cpp: the sessions of a `KcpServer`. A session object stands at a handle (its shared
-- pointer). A client's datagrams make a session that waits under the sender's endpoint; an answer
-- that is signed puts it into `m_sessions`, on the main loop, and then into the running sessions
-- of its worker. What one loop posts to another waits in a queue, which runs from its front.
pub mod Signed
pub mod Loops
pub mod Admits
pub mod Relogin
mod Examples
use nicenet.Common.{
  ℕ, suc, ◌+◌, Bool, true, false, Option, none, some, List, [], ◌∷◌, ◌++◌, ◌==◌, if◌then◌else◌,
  Bytes, take,
}
use nicenet.Common.Table.{Table, lookup, insert, erase}
use nicenet.Handshake.{Crypto}
use nicenet.Kcp.{check_sign}

pub record Session : Type 0 where
  pub uid : Bytes
  pub serial_id : ℕ
  pub hash : Bytes
  -- of the client, as a number
  pub endpoint : ℕ
  -- `m_iocontextIndex`
  pub worker : ℕ

-- what waits for the main loop, and for a worker
pub data Task : Type 0 where
  adds removes readies : ℕ → Task

pub data Job : Type 0 where
  starts stops : ℕ → Job

pub record KcpServer : Type 0 where
  pub session : ℕ → Session
  -- `m_closed` and `m_waitRemove` of the sessions
  pub closed : ℕ → Bool
  pub wait_remove : ℕ → Bool
  pub pre_sessions : ℕ → Option ℕ
  pub sessions : Table ℕ
  pub running_sessions : ℕ → Table ℕ
  pub tasks : List Task
  pub jobs : ℕ → List Job
  -- endpoints that were sent the one byte 0, and sessions that were sent KCP_READY_NTF
  pub dismissed : List ℕ
  pub readied : List ℕ

abbrev pub set_at {ℓ} : {A : Type ℓ} → ℕ → A → (ℕ → A) → ℕ → A
set_at i a f j = if i == j then a else f j

abbrev pub post : Task → KcpServer → KcpServer
post t s = record s { tasks = s.tasks ++ t ∷ [] }

abbrev pub post_to : ℕ → Job → KcpServer → KcpServer
post_to w j s = record s { jobs = set_at w (s.jobs w ++ j ∷ []) s.jobs }

-- `KcpSessionS::removeSelf` of the session at `h`
unfoldable pub remove_self : ℕ → KcpServer → KcpServer
remove_self h s =
    if s.wait_remove h
    then s
    else post (removes h) (record s { wait_remove = set_at h true s.wait_remove })

-- `KcpSessionS::close`
unfoldable pub close : ℕ → KcpServer → KcpServer
unfolding remove_self
close h s = remove_self h (record s { closed = set_at h true s.closed })

unfoldable pub close_found : Option ℕ → KcpServer → KcpServer
unfolding close
close_found none s = s
close_found (some h) s = close h s

unfoldable pub add_session : Bytes → ℕ → KcpServer → KcpServer
unfolding close_found
add_session uid h s =
    let s' = close_found (lookup uid s.sessions) s in
    record s' { sessions = insert uid h s'.sessions }

unfoldable pub remove_found : Bytes → ℕ → Option ℕ → KcpServer → KcpServer
unfolding close
remove_found uid serial none s = s
remove_found uid serial (some h) s =
    let s' = close h s in
    if (s.session h).serial_id == serial then record s' { sessions = erase uid s'.sessions } else s

unfoldable pub remove_session : Bytes → ℕ → KcpServer → KcpServer
unfolding remove_found
remove_session uid serial s = remove_found uid serial (lookup uid s.sessions) s

-- `KcpSessionS::removeSelfImpl`
unfoldable pub remove_self_impl : ℕ → KcpServer → KcpServer
unfolding remove_session
remove_self_impl h s =
    post_to (s.session h).worker (stops h)
      (remove_session (s.session h).uid (s.session h).serial_id s)

-- The main loop runs a task: the function that `init3` posts, the one that `removeSelf` posts, and
-- the last one of `init3`, which sends unless the session is closed.
unfoldable pub run_task : Task → KcpServer → KcpServer
unfolding add_session remove_self_impl
run_task (adds h) s = post_to (s.session h).worker (starts h) (add_session (s.session h).uid h s)
run_task (removes h) s = remove_self_impl h s
run_task (readies h) s = if s.closed h then s else record s { readied = s.readied ++ h ∷ [] }

-- the running session that gives way is told by one byte
unfoldable pub dismiss : Option ℕ → (ℕ → Session) → List ℕ → List ℕ
dismiss none session sent = sent
dismiss (some old) session sent = sent ++ (session old).endpoint ∷ []

-- A worker runs a job: the second function of `init3`, and the one of `removeSelfImpl`.
unfoldable pub run_job : Job → KcpServer → KcpServer
unfolding dismiss
run_job (starts h) s =
    let me = s.session h in
    let table = s.running_sessions me.worker in
    post (readies h) (record s {
      dismissed = dismiss (lookup me.uid table) s.session s.dismissed;
      running_sessions = set_at me.worker (insert me.uid h table) s.running_sessions;
    })
run_job (stops h) s =
    let me = s.session h in
    record s {
      running_sessions =
          set_at me.worker (erase me.uid (s.running_sessions me.worker)) s.running_sessions;
    }

-- One turn of the main loop or of a worker: the front of its queue, if there is one.
pub data Turn : Type 0 where
  of_main : Turn
  of_worker : ℕ → Turn

unfoldable pub main_turn : List Task → KcpServer → KcpServer
unfolding run_task
main_turn [] s = s
main_turn (t ∷ ts) s = run_task t (record s { tasks = ts })

unfoldable pub worker_turn : ℕ → List Job → KcpServer → KcpServer
unfolding run_job
worker_turn w [] s = s
worker_turn w (j ∷ js) s = run_job j (record s { jobs = set_at w js s.jobs })

unfoldable pub turn : Turn → KcpServer → KcpServer
unfolding main_turn worker_turn
turn of_main s = main_turn s.tasks s
turn (of_worker w) s = worker_turn w (s.jobs w) s

unfoldable pub turns : List Turn → KcpServer → KcpServer
unfolding turn
turns [] s = s
turns (t ∷ ts) s = turns ts (turn t s)

-- `KcpSessionS::init2`, when the greeting is sent, and its timer
abbrev pub init2 : ℕ → KcpServer → KcpServer
init2 h s = record s { pre_sessions = set_at (s.session h).endpoint (some h) s.pre_sessions }

abbrev pub init2_timeout : ℕ → KcpServer → KcpServer
init2_timeout h s = record s { pre_sessions = set_at (s.session h).endpoint none s.pre_sessions }

-- `KcpSessionS::init3`
abbrev pub init3 : ℕ → KcpServer → KcpServer
init3 h s = post (adds h) s

unfoldable pub accept_answer : Crypto → Bytes → Option Bytes → Option ℕ → KcpServer → KcpServer
unfolding check_sign
accept_answer crypto server_key (some received) (some h) s =
    let me = s.session h in
    if check_sign crypto server_key me.hash received
    then init3 h (record s { session = set_at h (record me { uid = take 64 received }) s.session })
    else s
accept_answer crypto server_key _ _ s = s

-- The receive handler on a datagram of the second kind from an endpoint, with the key and the
-- signature if it has room for them.
unfoldable pub on_answer : Crypto → Bytes → ℕ → Option Bytes → KcpServer → KcpServer
unfolding accept_answer
on_answer crypto server_key sender received s =
    accept_answer crypto server_key received (s.pre_sessions sender)
      (record s { pre_sessions = set_at sender none s.pre_sessions })
