-- ===== src/Sessions/Refines.antt =====
-- The table and the session objects of a server, seen as a function from keys to holders and the
-- set of the open sessions.
use nicenet.Common.{
  ℕ, ◌≡◌, refl, ap, ◌∙◌, arith, Bool, false, Option, none, some, List, [], ◌∷◌, ◌==◌, if◌then◌else◌,
  Bytes, Bool-cases, inl, inr,
}
use mathlib.Core.Path.{fun_ext}
use nicenet.Common.Text.{bytes_eq}
use nicenet.Common.Table.{Table, lookup, insert, erase, lookup-insert, lookup-erase}
use nicenet.Sessions.Replace.{sessions_kept}
use nicenet.Sessions.{
  Session, TcpServer, close, close_found, add_session, remove_found, remove_session,
  remove_self_impl,
}

-- Who holds a key, and which sessions are open.
pub record Directory : Type 0 where
  pub holder : Bytes → Option ℕ
  pub live : ℕ → Bool

-- What a session keeps for its life.
pub record Badge : Type 0 where
  pub key : Bytes
  pub serial : ℕ

abbrev pub view : TcpServer → Directory
view s = record { holder = λ k. lookup k s.sessions; live = λ h. (s.session h).is_open }

abbrev pub badges : TcpServer → ℕ → Badge
badges s h = record { key = (s.session h).uid; serial = (s.session h).serial_id }

abbrev shut : ℕ → (ℕ → Bool) → ℕ → Bool
shut h live j = if h == j then false else live j

abbrev shut_found : Option ℕ → (ℕ → Bool) → ℕ → Bool
shut_found none live = live
shut_found (some h) live = shut h live

-- The holder of a key gives way to the one that joins.
abbrev pub join : (ℕ → Badge) → ℕ → Directory → Directory
join badge h d = record {
  holder = λ k. if bytes_eq (badge h).key k then some h else d.holder k;
  live = shut_found (d.holder (badge h).key) d.live;
}

abbrev leave_found : (ℕ → Badge) → ℕ → Option ℕ → Directory → Directory
leave_found badge h none d = d
leave_found badge h (some j) d =
    if (badge j).serial == (badge h).serial
    then record {
      holder = λ k. if bytes_eq (badge h).key k then none else d.holder k;
      live = shut j d.live;
    }
    else d

-- A session leaves if the holder of its key has its serial number.
abbrev pub leave : (ℕ → Badge) → ℕ → Directory → Directory
leave badge h d = leave_found badge h (d.holder (badge h).key) d

pub data Call : Type 0 where
  joining leaving : ℕ → Call

unfoldable pub run : List Call → TcpServer → TcpServer
unfolding add_session remove_self_impl
run [] s = s
run (joining h ∷ cs) s = run cs (add_session (s.session h).uid h s)
run (leaving h ∷ cs) s = run cs (remove_self_impl h s)

abbrev pub run_directory : (ℕ → Badge) → List Call → Directory → Directory
run_directory badge [] d = d
run_directory badge (joining h ∷ cs) d = run_directory badge cs (join badge h d)
run_directory badge (leaving h ∷ cs) d = run_directory badge cs (leave badge h d)

same_directory :
    (d e : Directory)
    → ((k : Bytes) → d.holder k ≡ e.holder k)
    → ((h : ℕ) → d.live h ≡ e.live h)
    → d ≡ e
same_directory d e p q =
    ap (λ (x : Bytes → Option ℕ). record { holder = x; live = d.live }) (fun_ext p)
    ∙ ap (λ (x : ℕ → Bool). record { holder = e.holder; live = x }) (fun_ext q)

-- A closed session keeps its key and its number.
close-badge : (h : ℕ) (s : TcpServer) (j : ℕ) → badges (close h s) j ≡ badges s j
close-badge h s j = elim (Bool-cases (h == j)) [ inl e ↦ ground arith | inr e ↦ rw e ]

close-live :
    (h : ℕ) (s : TcpServer) (j : ℕ)
    → ((close h s).session j).is_open ≡ shut h (λ i. (s.session i).is_open) j
close-live h s j = elim (Bool-cases (h == j)) [ inl e ↦ rw e | inr e ↦ rw e ]

view-close :
    (h : ℕ) (s : TcpServer) → view (close h s) ≡ record (view s) { live = shut h (view s).live }
view-close h s = ap (λ (l : ℕ → Bool). record (view s) { live = l }) (fun_ext (close-live h s))

view-close_found :
    (o : Option ℕ) (s : TcpServer)
    → view (close_found o s) ≡ record (view s) { live = shut_found o (view s).live }
unfolding close_found
view-close_found none s = refl
view-close_found (some h) s = view-close h s

-- `addSession` is `join`.
view-add_session :
    (h : ℕ) (s : TcpServer) → view (add_session (s.session h).uid h s) ≡ join (badges s) h (view s)
unfolding add_session
view-add_session h s =
    let me = s.session h in
    let shown = view-close_found (lookup me.uid s.sessions) s in
    same_directory (view (add_session me.uid h s)) (join (badges s) h (view s))
      (λ k.
        ap (λ (t : Table ℕ). lookup k (insert me.uid h t))
          (sessions_kept (lookup me.uid s.sessions) s)
        ∙ lookup-insert me.uid k h s.sessions)
      (λ j. ap (λ (d : Directory). d.live j) shown)

-- `removeSelfImpl` is `leave`.
view-remove_self_impl :
    (h : ℕ) (s : TcpServer) → view (remove_self_impl h s) ≡ leave (badges s) h (view s)
unfolding remove_self_impl remove_session
view-remove_self_impl h s = go (lookup (s.session h).uid s.sessions)
  where
    me : Session
    me = s.session h

    go :
        (o : Option ℕ)
        → view (remove_found me.uid me.serial_id o s) ≡ leave_found (badges s) h o (view s)
    go none = refl
    go (some j) = elim (Bool-cases ((s.session j).serial_id == me.serial_id)) [
      | inl e ↦ rw e (
          same_directory (view (record (close j s) { sessions = erase me.uid s.sessions }))
            (record {
              holder = λ k. if bytes_eq me.uid k then none else lookup k s.sessions;
              live = shut j (view s).live;
            })
            (λ k. lookup-erase me.uid k s.sessions) (close-live j s))
      | inr e ↦ rw e
    ]

-- Neither changes a key or a number.
badges-add_session : (uid : Bytes) (h : ℕ) (s : TcpServer) → badges (add_session uid h s) ≡ badges s
unfolding add_session close_found
badges-add_session uid h s = go (lookup uid s.sessions)
  where
    go : (o : Option ℕ) → badges (close_found o s) ≡ badges s
    go none = refl
    go (some j) = fun_ext (close-badge j s)

badges-remove_self_impl : (h : ℕ) (s : TcpServer) → badges (remove_self_impl h s) ≡ badges s
unfolding remove_self_impl remove_session remove_found
badges-remove_self_impl h s = go (lookup (s.session h).uid s.sessions)
  where
    me : Session
    me = s.session h

    go : (o : Option ℕ) → badges (remove_found me.uid me.serial_id o s) ≡ badges s
    go none = refl
    go (some j) = elim (Bool-cases ((s.session j).serial_id == me.serial_id)) [
      | inl e ↦ rw e (fun_ext (close-badge j s))
      | inr e ↦ rw e
    ]

-- Whatever sessions join and leave in whatever order, the table and the session objects show the
-- directory that is got by the same calls on the directory that they showed at the start.
pub view-run :
    (cs : List Call) (s : TcpServer) → view (run cs s) ≡ run_directory (badges s) cs (view s)
unfolding run
view-run [] s = refl
view-run (joining h ∷ cs) s =
    let s' = add_session (s.session h).uid h s in
    view-run cs s'
    ∙ ap (λ (b : ℕ → Badge). run_directory b cs (view s'))
        (badges-add_session (s.session h).uid h s)
    ∙ ap (run_directory (badges s) cs) (view-add_session h s)
view-run (leaving h ∷ cs) s =
    let s' = remove_self_impl h s in
    view-run cs s'
    ∙ ap (λ (b : ℕ → Badge). run_directory b cs (view s')) (badges-remove_self_impl h s)
    ∙ ap (run_directory (badges s) cs) (view-remove_self_impl h s)
