-- ===== src/Http/Url/Refused.antt =====
-- The URLs that `parse` refuses, cuts short or does not survive.
use nicenet.Common.{
  ℕ, ◌≡◌, refl, sym, ap, append-nil, ◌∙◌, false, none, some, [], ◌∷◌, ◌++◌, All, Bytes,
  if◌then◌else◌,
}
use nicenet.Common.Text.{codes, bytes_eq}
use nicenet.Http.Chars.{is_alpha, is_alnum, is_digit}
use nicenet.Http.Url.Types.{new_url, username_or_hostname, port_or_password, Pass, new_pass}
use nicenet.Http.Url.Cases.{is_unreserved, on_user_or_host, on_hostname, on_port_or_password}
use nicenet.Http.Url.Parse.{step_in, scan, keep_host, parse, http_port}
use nicenet.Http.Url.Scan.{
  SchemeByte, HostByte, Digit, at, run_scheme, run_user_or_host, run_port_or_password,
}
use nicenet.Http.Url.Written.{nobody, started}

-- A scheme, a user or a host, and what follows it.
abbrev pub named_by : Bytes → Bytes → Bytes → Bytes
named_by s w rest = s ++ (b':' ∷ b'/' ∷ b'/' ∷ (w ++ rest))

module _ (s : Bytes) (w : Bytes) (rest : Bytes) (k : All SchemeByte s) (h : All HostByte w) where
  run_name :
      scan new_pass (named_by s w rest)
      ≡ scan (at username_or_hostname (started s nobody) w []) rest
  run_name =
      run_scheme s _ (record new_url { path = b'/' ∷ [] }) k
      ∙ run_user_or_host (started s nobody) [] [] w rest h

run_numbered :
    (s w d rest : Bytes)
    → All SchemeByte s
    → All HostByte w
    → All Digit d
    → scan new_pass (named_by s w (b':' ∷ (d ++ rest)))
      ≡ scan (at port_or_password (started s nobody) w d) rest
unfolding scan step_in on_user_or_host is_unreserved is_alnum is_alpha
run_numbered s w d rest k h i =
    run_name s w (b':' ∷ (d ++ rest)) k h ∙ run_port_or_password w (started s nobody) [] d rest i

pub scan_stops : (cs : Bytes) (p : Pass) → p.valid ≡ false → scan p cs ≡ some p
unfolding scan
scan_stops [] p e = refl
scan_stops (c ∷ cs) p e = rw e

-- A URL that ends behind its port, with a host of at least one byte: it is valid, and the port is
-- not in it, so that `httpPort` answers with the default of the scheme whatever the port was.
pub parse_no_slash :
    (s : Bytes) (c : ℕ) (cs d : Bytes)
    → All SchemeByte s
    → All HostByte (c ∷ cs)
    → All Digit d
    → let u = record (started s nobody) { hostname = c ∷ cs } in
      (parse (named_by s (c ∷ cs) (b':' ∷ d)) ≡ some (at port_or_password u (c ∷ cs) d))
      × (http_port u ≡ (if bytes_eq s (codes "https") then 443 else 80))
unfolding http_port scan keep_host parse
parse_no_slash s c cs d k h i =
    let e : scan new_pass (named_by s (c ∷ cs) (b':' ∷ d))
        ≡ some (at port_or_password (started s nobody) (c ∷ cs) d) =
      ap (λ (x : Bytes). scan new_pass (named_by s (c ∷ cs) (b':' ∷ x))) (sym (append-nil d))
      ∙ run_numbered s (c ∷ cs) d [] k h i in
    (rw (e, parse), refl)

-- A user whose password has only digits: the URL is refused, and the object is left with the user
-- for its host.
pub parse_numeric_password :
    (s : Bytes) (c : ℕ) (cs d rest : Bytes)
    → All SchemeByte s
    → All HostByte (c ∷ cs)
    → All Digit d
    → parse (named_by s (c ∷ cs) (b':' ∷ (d ++ (b'@' ∷ rest))))
      ≡ some (record {
        state = port_or_password;
        url = record new_url { hostname = c ∷ cs };
        user_or_host = c ∷ cs;
        port_or_pass = d;
        valid = false;
      })
unfolding parse keep_host scan step_in on_port_or_password is_digit is_alnum is_alpha
parse_numeric_password s c cs d rest k h i =
    let e =
      run_numbered s (c ∷ cs) d (b'@' ∷ rest) k h i
      ∙ scan_stops rest
          (record (at port_or_password (started s nobody) (c ∷ cs) d) {
            url = new_url;
            valid = false;
          })
          refl in
    rw (e, parse)

-- A `[` in front of the host, with a user in front of it and any byte behind it: `abort()`.
pub parse_bracket :
    (s w : Bytes) (c : ℕ) (rest : Bytes)
    → All SchemeByte s
    → All HostByte w
    → parse (named_by s w (b'@' ∷ b'[' ∷ c ∷ rest)) ≡ none
unfolding parse scan step_in on_user_or_host on_hostname is_unreserved is_alnum is_alpha
parse_bracket s w c rest k h = rw (run_name s w (b'@' ∷ b'[' ∷ c ∷ rest) k h, parse)
