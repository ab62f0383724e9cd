-- ===== src/Http/Url/Parse.antt =====
-- `UrlParser::parse_`, `parse` and `httpPort`.
use nicenet.Common.{ℕ, Option, none, some, Bytes, [], ◌∷◌, if◌then◌else◌}
use nicenet.Common.Text.{codes, bytes_eq}
use nicenet.Http.Url.Types.{
  Url, State, in_scheme, slash_after_scheme_1, slash_after_scheme_2, username_or_hostname,
  in_password, in_hostname, ipv6_hostname, port_or_password, in_port, in_path, in_query,
  in_fragment, Pass, Next, next, aborts, new_pass,
}
use nicenet.Http.Url.Cases.{
  is_empty, on_scheme, on_slash_1, on_slash_2, on_user_or_host, on_password, on_hostname,
  on_port_or_password, on_port, on_path, on_query, on_fragment,
}

-- the `switch`
unfoldable pub step_in : State → ℕ → Pass → Next
step_in in_scheme c p = on_scheme c p
step_in slash_after_scheme_1 c p = on_slash_1 c p
step_in slash_after_scheme_2 c p = on_slash_2 c p
step_in username_or_hostname c p = on_user_or_host c p
step_in in_password c p = on_password c p
step_in in_hostname c p = on_hostname c p
step_in ipv6_hostname c p = aborts
step_in port_or_password c p = on_port_or_password c p
step_in in_port c p = on_port c p
step_in in_path c p = on_path c p
step_in in_query c p = on_query c p
step_in in_fragment c p = on_fragment c p

-- the `for`, with its test of `valid`; `none` is `abort()`
unfoldable pub scan : Pass → Bytes → Option Pass
unfolding step_in
scan p [] = some p
scan p (c ∷ cs) =
    let rest : Next → Option Pass = λ (n : Next). elim n [ next q ↦ scan q cs | aborts ↦ none ] in
    if p.valid then rest (step_in p.state c p) else some p

-- behind the loop: `if (!usernameOrHostname.empty()) url.hostname = usernameOrHostname`
unfoldable pub keep_host : Pass → Pass
keep_host p =
    if is_empty p.user_or_host
    then p
    else record p { url = record (p.url) { hostname = p.user_or_host } }

-- `parse(str)`: `isValid()` and the fields of `url`
unfoldable pub parse : Bytes → Option Pass
unfolding scan keep_host
parse text = elim (scan new_pass text) [ none ↦ none | some p ↦ some (keep_host p) ]

unfoldable pub http_port : Url → ℕ
unfolding bytes_eq
http_port u =
    if is_empty u.port
    then (if bytes_eq u.scheme (codes "https") then 443 else 80)
    else u.integer_port
