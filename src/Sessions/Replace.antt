-- ===== src/Sessions/Replace.antt =====
-- A client that connects again takes the place of its old session.
use nicenet.Common.{ℕ, ◌≡◌, ◌≢◌, refl, ap, ◌∙◌, arith, false, Option, none, some, Bytes}
use nicenet.Common.Table.{Table, lookup, insert, lookup-insert, bytes_eq_iff}
use nicenet.Sessions.{TcpServer, close_found, add_session, remove_found, remove_self_impl}

lookup_self :
    (k : Bytes) (h : ℕ) (server : TcpServer) → lookup k (insert k h server.sessions) ≡ some h
lookup_self k h server = ground (arith, lookup-insert k k h server.sessions, bytes_eq_iff k k)

pub sessions_kept :
    (o : Option ℕ) (server : TcpServer) → (close_found o server).sessions ≡ server.sessions
unfolding close_found
sessions_kept none server = refl
sessions_kept (some h) server = refl

-- `addSession` makes the new session the one of its key, closes the socket of the session that
-- the key had, and leaves the sessions of the other keys in the table.
pub add_session_lem :
    (uid : Bytes) (h old : ℕ) (server : TcpServer)
    → lookup uid server.sessions ≡ some old
    → let after = add_session uid h server in
      (lookup uid after.sessions ≡ some h)
      × ((after.session old).is_open ≡ false)
      × ((k : Bytes) → k ≢ uid → lookup k after.sessions ≡ lookup k server.sessions)
unfolding add_session close_found
add_session_lem uid h old server e = (
  rw e (lookup_self uid h server),
  rw e (ground arith),
  λ k ne. rw e (ground (arith, lookup-insert uid k h server.sessions, bytes_eq_iff uid k)),
)

close_found_serial :
    (o : Option ℕ) (server : TcpServer) (j : ℕ)
    → ((close_found o server).session j).serial_id ≡ (server.session j).serial_id
unfolding close_found
close_found_serial none server j = refl
close_found_serial (some h) server j = ground arith

-- Whether or not the key had a session, the new one is in the table, the other keys keep theirs,
-- and no serial number changes.
pub add_session_new :
    (uid : Bytes) (h : ℕ) (server : TcpServer)
    → let after = add_session uid h server in
      (lookup uid after.sessions ≡ some h)
      × ((k : Bytes) → k ≢ uid → lookup k after.sessions ≡ lookup k server.sessions)
      × ((j : ℕ) → (after.session j).serial_id ≡ (server.session j).serial_id)
unfolding add_session
add_session_new uid h server =
    let same = sessions_kept (lookup uid server.sessions) server in
    (
      ap (λ (t : Table ℕ). lookup uid (insert uid h t)) same ∙ lookup_self uid h server,
      λ k ne.
          ap (λ (t : Table ℕ). lookup k (insert uid h t)) same
          ∙ ground (arith, lookup-insert uid k h server.sessions, bytes_eq_iff uid k),
      λ j. close_found_serial (lookup uid server.sessions) server j,
    )

-- A session that was replaced does not take the new one with it: where the table has another
-- session under the key of the session at `h`, with another serial number, `removeSelfImpl` of
-- the session at `h` changes nothing.
pub remove_self_impl_stale :
    (h new : ℕ) (server : TcpServer)
    → lookup (server.session h).uid server.sessions ≡ some new
    → (server.session new).serial_id ≢ (server.session h).serial_id
    → remove_self_impl h server ≡ server
unfolding remove_self_impl remove_found
remove_self_impl_stale h new server e ne = rw (e, remove_found) (ground arith)
