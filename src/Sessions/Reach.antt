-- ===== src/Sessions/Reach.antt =====
-- Every order in which sessions join and leave on the main loop.
use nicenet.Common.{
  ℕ, ◌≡◌, refl, arith, true, Option, none, some, List, [], ◌∷◌, ◌==◌, ◌⊎◌, inl, inr, Bool-cases,
}
use nicenet.Common.Table.{lookup, lookup-insert, lookup-erase, bytes_eq_iff}
use nicenet.Sessions.{TcpServer, close_found, add_session, remove_found, remove_self_impl}

-- The server after `addSession` of sessions (`init2` posts it with the session's own key) and
-- `removeSelfImpl` of any, in any order; the list has the sessions that have joined.
pub data Reach (first : TcpServer) : List ℕ → TcpServer → Type 0 where
  start : Reach first [] first
  joins :
      {js : List ℕ} {s : TcpServer} (h : ℕ)
      → Reach first js s
      → Reach first (h ∷ js) (add_session (s.session h).uid h s)
  leaves :
      {js : List ℕ} {s : TcpServer} (h : ℕ)
      → Reach first js s
      → Reach first js (remove_self_impl h s)

abbrev pub Joined : ℕ → List ℕ → Type 0
Joined h [] = ⊥
Joined h (j ∷ js) = (h ≡ j) ⊎ Joined h js

-- An open session is the one of its key.
abbrev pub IsCurrent : ℕ → TcpServer → Type 0
IsCurrent k s = (s.session k).is_open ≡ true → lookup (s.session k).uid s.sessions ≡ some k

add_session-IsCurrent :
    (s : TcpServer) (h k : ℕ) (o : Option ℕ)
    → lookup (s.session h).uid s.sessions ≡ o
    → (k ≡ h) ⊎ IsCurrent k s
    → IsCurrent k (add_session (s.session h).uid h s)
unfolding add_session close_found
add_session-IsCurrent s h k none e c =
    rw (e, close_found)
      (λ live. ground (
        arith,
        lookup-insert (s.session h).uid (s.session k).uid h s.sessions,
        bytes_eq_iff (s.session h).uid (s.session k).uid,
      ))
add_session-IsCurrent s h k (some old) e c =
    rw (e, close_found)
      (λ live. ground (
        arith,
        lookup-insert (s.session h).uid (s.session k).uid h s.sessions,
        bytes_eq_iff (s.session h).uid (s.session k).uid,
      ))

remove_self_impl-IsCurrent :
    (s : TcpServer) (h k : ℕ) (o : Option ℕ)
    → lookup (s.session h).uid s.sessions ≡ o
    → IsCurrent k s
    → IsCurrent k (remove_self_impl h s)
unfolding remove_self_impl remove_found
remove_self_impl-IsCurrent s h k none e c = rw (e, remove_found) c
remove_self_impl-IsCurrent s h k (some old) e c =
    elim (Bool-cases ((s.session old).serial_id == (s.session h).serial_id)) [
      | inl same ↦
          rw (e, remove_found)
            (rw same (λ live. ground (
              arith,
              lookup-erase (s.session h).uid (s.session k).uid s.sessions,
              bytes_eq_iff (s.session h).uid (s.session k).uid,
            )))
      | inr other ↦ rw (e, remove_found) (rw other c)
    ]

-- However sessions join and leave: a session that has joined and whose socket is open is the one
-- that the table has under its key. So a session that the server has let go is closed, and no
-- two open sessions have one key.
pub Reach-IsCurrent :
    {first s : TcpServer} {js : List ℕ} (k : ℕ) → Reach first js s → Joined k js → IsCurrent k s
Reach-IsCurrent k start j = absurd j
Reach-IsCurrent k (joins {js = js} {s = s} h r) (inl e) =
    add_session-IsCurrent s h k (lookup (s.session h).uid s.sessions) refl (inl e)
Reach-IsCurrent k (joins {js = js} {s = s} h r) (inr j) =
    add_session-IsCurrent s h k (lookup (s.session h).uid s.sessions) refl
      (inr (Reach-IsCurrent k r j))
Reach-IsCurrent k (leaves {s = s} h r) j =
    remove_self_impl-IsCurrent s h k (lookup (s.session h).uid s.sessions) refl
      (Reach-IsCurrent k r j)
