-- ===== src/Http/Url/RoundTrip.antt =====
-- A URL that is written out comes back from `parse` in its parts.
use nicenet.Common.{ℕ, ap, ◌≡◌, refl, ◌∙◌, Option, none, some, [], ◌∷◌, ◌++◌, Bytes, All}
use nicenet.Http.Chars.{is_alpha, is_alnum, is_digit}
use nicenet.Http.Url.Types.{
  new_url, username_or_hostname, in_password, in_hostname, port_or_password, in_path, new_pass,
}
use nicenet.Http.Url.Cases.{
  is_unreserved, on_user_or_host, on_password, on_hostname, on_port_or_password, on_port, on_path,
  on_query,
}
use nicenet.Http.Url.Parse.{step_in, scan, keep_host, parse}
use nicenet.Http.Url.Scan.{
  HostByte, PathByte, QueryByte, Digit, without_marks, at, scan_next, run_scheme, run_user_or_host,
  run_port_or_password, run_port, run_password, run_hostname, run_path, run_query, run_fragment,
  PasswordByte-slash,
}
use nicenet.Http.Url.Port.{port_of-decimal}
use nicenet.Http.Url.Written.{
  User, nobody, named, known, Parts, write_user, write_port, write_query, write_fragment, write,
  IsUser, AllSome, IsPort, IsParts, started, hosted, held, read, last_state, integer_of,
  port_number,
}

abbrev parts : Bytes → User → Bytes → Option Bytes → Bytes → Option Bytes → Option Bytes → Parts
parts s u h port path q f = record {
  scheme = s;
  user = u;
  host = h;
  port = port;
  path = path;
  query = q;
  fragment = f;
}

module _ (s : Bytes) (u : User) (h : Bytes) (port : Option Bytes) (path : Bytes) where
  run_queried :
      (q f : Option Bytes)
      → AllSome QueryByte q
      → let p = parts s u h port path q f in
        scan
          (at in_path (record (hosted s u h port) { path = b'/' ∷ path }) [] [])
          (write_query q (write_fragment f))
        ≡ some (at (last_state p) (held p) [] [])
  unfolding scan step_in on_path on_query without_marks
  run_queried none none k = refl
  run_queried none (some f) k =
      run_fragment [] [] f (record (hosted s u h port) { path = b'/' ∷ path })
  run_queried (some q) none k =
      run_query [] [] q [] (record (hosted s u h port) { path = b'/' ∷ path }) k
  run_queried (some q) (some f) k =
      run_query [] [] q (b'#' ∷ f) (record (hosted s u h port) { path = b'/' ∷ path }) k
      ∙ run_fragment [] [] f
          (record (hosted s u h port) { path = b'/' ∷ path; query = without_marks q })

  run_target :
      (q f : Option Bytes)
      → All PathByte path
      → AllSome QueryByte q
      → let p = parts s u h port path q f in
        scan (at in_path (hosted s u h port) [] []) (path ++ write_query q (write_fragment f))
        ≡ some (at (last_state p) (held p) [] [])
  run_target q f k' k = run_path [] [] path _ (hosted s u h port) k' ∙ run_queried q f k

-- The user, the host and the port.
module _ (s h t : Bytes) (k : All HostByte h) where
  run_host_port :
      (u : User) (port : Option Bytes)
      → AllSome Digit port
      → scan (at in_hostname (started s u) [] []) (h ++ write_port port (b'/' ∷ t))
        ≡ scan (at in_path (hosted s u h port) [] []) t
  unfolding scan step_in on_hostname on_port is_unreserved is_alnum is_alpha is_digit
  run_host_port u none d = run_hostname [] [] h (b'/' ∷ t) (started s u) k
  run_host_port u (some p) d =
      run_hostname [] [] h (b':' ∷ (p ++ (b'/' ∷ t))) (started s u) k
      ∙ run_port [] (record (started s u) { hostname = h }) [] p (b'/' ∷ t) d

  -- a host that `parse_` takes for a user at first
  run_only_host :
      (port : Option Bytes)
      → AllSome Digit port
      → scan (at username_or_hostname (started s nobody) [] []) (h ++ write_port port (b'/' ∷ t))
        ≡ scan (at in_path (hosted s nobody h port) [] []) t
  unfolding scan step_in on_user_or_host on_port_or_password is_unreserved is_alnum is_alpha
      is_digit
  run_only_host none d = run_user_or_host (started s nobody) [] [] h (b'/' ∷ t) k
  run_only_host (some p) d =
      run_user_or_host (started s nobody) [] [] h (b':' ∷ (p ++ (b'/' ∷ t))) k
      ∙ run_port_or_password h (started s nobody) [] p (b'/' ∷ t) d

  run_authority :
      (u : User) (port : Option Bytes)
      → IsUser u
      → AllSome Digit port
      → scan
          (at username_or_hostname (started s nobody) [] [])
          (write_user u (h ++ write_port port (b'/' ∷ t)))
        ≡ scan (at in_path (hosted s u h port) [] []) t
  unfolding scan step_in on_user_or_host on_password on_port_or_password is_unreserved is_alnum
      is_alpha
  run_authority nobody port i d = run_only_host port d
  run_authority (named n) port i d =
      run_user_or_host (started s nobody) [] [] n _ i ∙ run_host_port (named n) port d
  run_authority (known n w) port i d =
      run_user_or_host (started s nobody) [] [] n _ i.0
      ∙ run_port_or_password n (started s nobody) [] w.lead _ (i.1).0
      ∙ scan_next (at port_or_password (started s nobody) n w.lead) w.mark
          (w.more ++ (b'@' ∷ (h ++ write_port port (b'/' ∷ t))))
          {q = at in_password
            (record (started s nobody) { username = n; password = w.lead ++ w.mark ∷ [] }) [] []}
          refl
          (rw ((i.1).1).0 (rw (PasswordByte-slash w.mark (((i.1).1).1).0) (rw ((((i.1).1).1).0))))
      ∙ run_password [] [] w.more _
          (record (started s nobody) { username = n; password = w.lead ++ w.mark ∷ [] })
          (((i.1).1).1).1
      ∙ run_host_port (known n w) port d

digits_of : (port : Option Bytes) → IsPort port → AllSome Digit port
digits_of none k = tt
digits_of (some xs) k = k.0

integer_of-port_number : (port : Option Bytes) → IsPort port → integer_of port ≡ port_number port
integer_of-port_number none k = refl
integer_of-port_number (some xs) k = port_of-decimal xs k.0 k.1

-- A URL whose scheme, user, host, port, path and query are made of the bytes that their states
-- take, and whose port stands for a number below 2 ^ 63, is valid, and comes back in its parts,
-- whatever the fragment: the port as text and as the last 16 bits of its number, and the query
-- without its question marks.
pub parse-write :
    (p : Parts) → IsParts p → parse (write p) ≡ some (at (last_state p) (read p) [] [])
unfolding parse keep_host
parse-write p k =
    let e : scan new_pass (write p) ≡ some (at (last_state p) (held p) [] []) =
      run_scheme p.scheme _ (record new_url { path = b'/' ∷ [] }) k.scheme_ok
      ∙ run_authority p.scheme p.host _ k.host_ok p.user p.port k.user_ok
          (digits_of p.port k.port_ok)
      ∙ run_target p.scheme p.user p.host p.port p.path p.query p.fragment k.path_ok k.query_ok in
    rw (e, parse)
      (ap (λ (n : ℕ). some (at (last_state p) (record (held p) { integer_port = n }) [] []))
        (integer_of-port_number p.port k.port_ok))
