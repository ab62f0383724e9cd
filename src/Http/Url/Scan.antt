-- ===== src/Http/Url/Scan.antt =====
-- What each part of a URL does to the pass.
use nicenet.Common.{
  ℕ, ◌≡◌, refl, ◌∙◌, arith, true, false, some, [], ◌∷◌, ◌++◌, append-nil, append_assoc, ◌||◌, ◌==◌,
  if◌then◌else◌, All, Bytes, Bool-cases, inl, inr,
}
use nicenet.Http.Chars.{is_alpha, is_alnum, is_digit}
use nicenet.Http.Url.Types.{
  Url, State, in_scheme, username_or_hostname, in_password, in_hostname, port_or_password, in_port,
  in_path, in_query, in_fragment, Pass, next,
}
use nicenet.Http.Url.Cases.{
  is_unreserved, on_scheme, on_slash_1, on_slash_2, on_user_or_host, on_password, on_hostname,
  on_port_or_password, on_port, on_path, on_query, on_fragment,
}
use nicenet.Http.Url.Parse.{step_in, scan}

-- The bytes that the states take into a part.
abbrev pub SchemeByte : ℕ → Type 0
SchemeByte c = (is_alnum c || c == b'+' || c == b'-' || c == b'.') ≡ true

abbrev pub HostByte : ℕ → Type 0
HostByte c = (is_unreserved c || c == b'%') ≡ true

abbrev pub PasswordByte : ℕ → Type 0
PasswordByte c = (is_alnum c || c == b'%') ≡ true

abbrev pub Digit : ℕ → Type 0
Digit c = is_digit c ≡ true

abbrev pub PathByte : ℕ → Type 0
PathByte c = ((c == b'#') ≡ false) × ((c == b'?') ≡ false)

abbrev pub QueryByte : ℕ → Type 0
QueryByte c = (c == b'#') ≡ false

-- A query without its question marks.
unfoldable pub without_marks : Bytes → Bytes
without_marks [] = []
without_marks (c ∷ cs) = let rest = without_marks cs in if c == b'?' then rest else c ∷ rest

-- A pass that has refused nothing.
abbrev pub at : State → Url → Bytes → Bytes → Pass
at st u host port = record {
  state = st;
  url = u;
  user_or_host = host;
  port_or_pass = port;
  valid = true;
}

pub scan_next :
    (p : Pass) (c : ℕ) (cs : Bytes) {q : Pass}
    → p.valid ≡ true
    → step_in p.state c p ≡ next q
    → scan p (c ∷ cs) ≡ scan q cs
unfolding scan
scan_next p c cs v e = rw (e, scan) (rw v)

HostByte-bracket : (c : ℕ) → HostByte c → (c == b'[') ≡ false
unfolding is_unreserved is_alnum is_alpha
HostByte-bracket c h = ground arith

pub PasswordByte-slash : (c : ℕ) → PasswordByte c → (c == b'/') ≡ false
unfolding is_alnum is_alpha
PasswordByte-slash c h = ground arith

pub run_scheme :
    (cs rest : Bytes) (u : Url)
    → All SchemeByte cs
    → scan (at in_scheme u [] []) (cs ++ (b':' ∷ b'/' ∷ b'/' ∷ rest))
      ≡ scan (at username_or_hostname (record u { scheme = u.scheme ++ cs }) [] []) rest
unfolding step_in on_scheme scan on_slash_1 on_slash_2 is_alnum is_alpha
run_scheme [] rest u h = rw append-nil
run_scheme (c ∷ cs) rest u h =
    scan_next (at in_scheme u [] []) c (cs ++ (b':' ∷ b'/' ∷ b'/' ∷ rest))
      {q = at in_scheme (record u { scheme = u.scheme ++ c ∷ [] }) [] []} refl (rw (h.0))
    ∙ run_scheme cs rest (record u { scheme = u.scheme ++ c ∷ [] }) h.1
    ∙ rw append_assoc

module _ (u : Url) (port : Bytes) where
  pub run_user_or_host :
      (w cs rest : Bytes)
      → All HostByte cs
      → scan (at username_or_hostname u w port) (cs ++ rest)
        ≡ scan (at username_or_hostname u (w ++ cs) port) rest
  unfolding step_in on_user_or_host
  run_user_or_host w [] rest h = rw append-nil
  run_user_or_host w (c ∷ cs) rest h =
      scan_next (at username_or_hostname u w port) c (cs ++ rest)
        {q = at username_or_hostname u (w ++ c ∷ []) port} refl (rw (h.0))
      ∙ run_user_or_host (w ++ c ∷ []) cs rest h.1
      ∙ rw append_assoc

module _ (host : Bytes) where
  pub run_port_or_password :
      (u : Url) (w cs rest : Bytes)
      → All Digit cs
      → scan (at port_or_password u host w) (cs ++ rest)
        ≡ scan (at port_or_password u host (w ++ cs)) rest
  unfolding step_in on_port_or_password
  run_port_or_password u w [] rest h = rw append-nil
  run_port_or_password u w (c ∷ cs) rest h =
      scan_next (at port_or_password u host w) c (cs ++ rest)
        {q = at port_or_password u host (w ++ c ∷ [])} refl (rw (h.0))
      ∙ run_port_or_password u (w ++ c ∷ []) cs rest h.1
      ∙ rw append_assoc

  pub run_port :
      (u : Url) (w cs rest : Bytes)
      → All Digit cs
      → scan (at in_port u host w) (cs ++ rest) ≡ scan (at in_port u host (w ++ cs)) rest
  unfolding step_in on_port
  run_port u w [] rest h = rw append-nil
  run_port u w (c ∷ cs) rest h =
      scan_next (at in_port u host w) c (cs ++ rest) {q = at in_port u host (w ++ c ∷ [])} refl
        (rw (h.0))
      ∙ run_port u (w ++ c ∷ []) cs rest h.1
      ∙ rw append_assoc

module _ (host port : Bytes) where
  pub run_password :
      (cs rest : Bytes) (u : Url)
      → All PasswordByte cs
      → scan (at in_password u host port) (cs ++ rest)
        ≡ scan (at in_password (record u { password = u.password ++ cs }) host port) rest
  unfolding step_in on_password
  run_password [] rest u h = rw append-nil
  run_password (c ∷ cs) rest u h =
      scan_next (at in_password u host port) c (cs ++ rest)
        {q = at in_password (record u { password = u.password ++ c ∷ [] }) host port} refl
        (rw (h.0))
      ∙ run_password cs rest (record u { password = u.password ++ c ∷ [] }) h.1
      ∙ rw append_assoc

  pub run_hostname :
      (cs rest : Bytes) (u : Url)
      → All HostByte cs
      → scan (at in_hostname u host port) (cs ++ rest)
        ≡ scan (at in_hostname (record u { hostname = u.hostname ++ cs }) host port) rest
  unfolding step_in on_hostname
  run_hostname [] rest u h = rw append-nil
  run_hostname (c ∷ cs) rest u h =
      scan_next (at in_hostname u host port) c (cs ++ rest)
        {q = at in_hostname (record u { hostname = u.hostname ++ c ∷ [] }) host port} refl
        (rw (HostByte-bracket c h.0) (rw (h.0)))
      ∙ run_hostname cs rest (record u { hostname = u.hostname ++ c ∷ [] }) h.1
      ∙ rw append_assoc

  pub run_path :
      (cs rest : Bytes) (u : Url)
      → All PathByte cs
      → scan (at in_path u host port) (cs ++ rest)
        ≡ scan (at in_path (record u { path = u.path ++ cs }) host port) rest
  unfolding step_in on_path
  run_path [] rest u h = rw append-nil
  run_path (c ∷ cs) rest u h =
      scan_next (at in_path u host port) c (cs ++ rest)
        {q = at in_path (record u { path = u.path ++ c ∷ [] }) host port} refl
        (rw ((h.0).0) (rw ((h.0).1)))
      ∙ run_path cs rest (record u { path = u.path ++ c ∷ [] }) h.1
      ∙ rw append_assoc

  pub run_query :
      (cs rest : Bytes) (u : Url)
      → All QueryByte cs
      → scan (at in_query u host port) (cs ++ rest)
        ≡ scan (at in_query (record u { query = u.query ++ without_marks cs }) host port) rest
  unfolding step_in on_query without_marks
  run_query [] rest u h = rw append-nil
  run_query (c ∷ cs) rest u h = elim (Bool-cases (c == b'?')) [
    | inl e ↦
        scan_next (at in_query u host port) c (cs ++ rest) {q = at in_query u host port} refl
          (rw (h.0) (rw e))
        ∙ run_query cs rest u h.1
        ∙ rw e
    | inr e ↦
        scan_next (at in_query u host port) c (cs ++ rest)
          {q = at in_query (record u { query = u.query ++ c ∷ [] }) host port} refl
          (rw (h.0) (rw e))
        ∙ run_query cs rest (record u { query = u.query ++ c ∷ [] }) h.1
        ∙ rw e (rw append_assoc)
  ]

  pub run_fragment :
      (cs : Bytes) (u : Url)
      → scan (at in_fragment u host port) cs
        ≡ some (at in_fragment (record u { fragment = u.fragment ++ cs }) host port)
  unfolding scan step_in on_fragment
  run_fragment [] u = rw append-nil
  run_fragment (c ∷ cs) u =
      run_fragment cs (record u { fragment = u.fragment ++ c ∷ [] }) ∙ rw append_assoc
