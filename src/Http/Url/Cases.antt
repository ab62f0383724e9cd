-- ===== src/Http/Url/Cases.antt =====
-- The cases of the `switch` in `parse_`.
use nicenet.Common.{
  ℕ, ◌%◌, ◌^◌, Bool, true, false, ◌||◌, ◌&&◌, Bytes, [], ◌∷◌, ◌++◌, ◌==◌, if◌then◌else◌,
}
use nicenet.Http.Chars.{is_alnum, is_digit, c_str}
use nicenet.Http.Numbers.{strtol_decimal}
use nicenet.Http.Url.Types.{
  slash_after_scheme_1, slash_after_scheme_2, username_or_hostname, in_password, in_hostname,
  ipv6_hostname, port_or_password, in_port, in_path, in_query, in_fragment, Pass, Next, next, enter,
  refuse,
}

abbrev pub is_empty : Bytes → Bool
is_empty [] = true
is_empty (_ ∷ _) = false

unfoldable pub is_unreserved : ℕ → Bool
is_unreserved c = is_alnum c || (c == b'-' || c == b'.' || c == b'_' || c == b'~')

-- `uint16_t(atoi(port.c_str()))`
unfoldable pub port_of : Bytes → ℕ
port_of port = strtol_decimal (c_str port) % 2 ^ 16

-- `case Scheme`
unfoldable pub on_scheme : ℕ → Pass → Next
on_scheme c p =
    if is_alnum c || c == b'+' || c == b'-' || c == b'.'
    then next (record p { url = record (p.url) { scheme = p.url.scheme ++ c ∷ [] } })
    else if c == b':'
    then enter slash_after_scheme_1 p
    else refuse p

-- `case SlashAfterScheme1`
unfoldable pub on_slash_1 : ℕ → Pass → Next
on_slash_1 c p =
    if c == b'/'
    then enter slash_after_scheme_2 p
    else if is_alnum c
    then next (record p { state = username_or_hostname; user_or_host = c ∷ [] })
    else refuse p

-- `case SlashAfterScheme2`
unfoldable pub on_slash_2 : ℕ → Pass → Next
on_slash_2 c p = if c == b'/' then enter username_or_hostname p else refuse p

-- `case UsernameOrHostname`
unfoldable pub on_user_or_host : ℕ → Pass → Next
unfolding is_unreserved
on_user_or_host c p =
    if is_unreserved c || c == b'%'
    then next (record p { user_or_host = p.user_or_host ++ c ∷ [] })
    else if c == b':'
    then enter port_or_password p
    else if c == b'@'
    then next (record p {
      state = in_hostname;
      url = record (p.url) { username = p.user_or_host };
      user_or_host = p.url.username;
    })
    else if c == b'/'
    then next (record p {
      state = in_path;
      url = record (p.url) { hostname = p.user_or_host };
      user_or_host = p.url.hostname;
    })
    else refuse p

-- `case Password`
unfoldable pub on_password : ℕ → Pass → Next
on_password c p =
    if is_alnum c || c == b'%'
    then next (record p { url = record (p.url) { password = p.url.password ++ c ∷ [] } })
    else if c == b'@'
    then enter in_hostname p
    else refuse p

-- `case Hostname`
unfoldable pub on_hostname : ℕ → Pass → Next
unfolding is_unreserved
on_hostname c p =
    if c == b'[' && is_empty p.url.hostname
    then enter ipv6_hostname p
    else if is_unreserved c || c == b'%'
    then next (record p { url = record (p.url) { hostname = p.url.hostname ++ c ∷ [] } })
    else if c == b':'
    then enter in_port p
    else if c == b'/'
    then enter in_path p
    else refuse p

-- `case PortOrPassword`
unfoldable pub on_port_or_password : ℕ → Pass → Next
unfolding port_of
on_port_or_password c p =
    if is_digit c
    then next (record p { port_or_pass = p.port_or_pass ++ c ∷ [] })
    else if c == b'/'
    then next (record p {
      state = in_path;
      url = record (p.url) {
        hostname = p.user_or_host;
        port = p.port_or_pass;
        integer_port = port_of p.port_or_pass;
      };
      user_or_host = p.url.hostname;
      port_or_pass = p.url.port;
    })
    else if is_alnum c || c == b'%'
    then next (record p {
      state = in_password;
      url = record (p.url) { username = p.user_or_host; password = p.port_or_pass ++ c ∷ [] };
      user_or_host = p.url.username;
      port_or_pass = p.url.password;
    })
    else refuse p

-- `case Port`
unfoldable pub on_port : ℕ → Pass → Next
unfolding port_of
on_port c p =
    if is_digit c
    then next (record p { port_or_pass = p.port_or_pass ++ c ∷ [] })
    else if c == b'/'
    then next (record p {
      state = in_path;
      url = record (p.url) { port = p.port_or_pass; integer_port = port_of p.port_or_pass };
      port_or_pass = p.url.port;
    })
    else refuse p

-- `case Path`
unfoldable pub on_path : ℕ → Pass → Next
on_path c p =
    if c == b'#'
    then enter in_fragment p
    else if c == b'?'
    then enter in_query p
    else next (record p { url = record (p.url) { path = p.url.path ++ c ∷ [] } })

-- `case Query`
unfoldable pub on_query : ℕ → Pass → Next
on_query c p =
    if c == b'#'
    then enter in_fragment p
    else if c == b'?'
    then enter in_query p
    else next (record p { url = record (p.url) { query = p.url.query ++ c ∷ [] } })

-- `case Fragment`
unfoldable pub on_fragment : ℕ → Pass → Next
on_fragment c p = next (record p { url = record (p.url) { fragment = p.url.fragment ++ c ∷ [] } })
