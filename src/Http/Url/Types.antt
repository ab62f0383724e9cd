-- ===== src/Http/Url/Types.antt =====
-- `UrlParser::Url`, the locals of `parse_`, and the result of one byte.
use nicenet.Common.{ℕ, Bool, true, false, Bytes, [], ◌∷◌}

pub record Url : Type 0 where
  pub scheme : Bytes
  pub username : Bytes
  pub password : Bytes
  pub hostname : Bytes
  pub port : Bytes
  pub path : Bytes
  pub query : Bytes
  pub fragment : Bytes
  pub integer_port : ℕ

-- `Url()`
abbrev pub new_url : Url
new_url = record {
  scheme = [];
  username = [];
  password = [];
  hostname = [];
  port = [];
  path = [];
  query = [];
  fragment = [];
  integer_port = 0;
}

pub data State : Type 0 where
  in_scheme slash_after_scheme_1 slash_after_scheme_2 username_or_hostname : State
  in_password in_hostname ipv6_hostname port_or_password in_port : State
  in_path in_query in_fragment : State

-- `state`, `url`, `usernameOrHostname`, `portOrPassword` and `valid`
pub record Pass : Type 0 where
  pub state : State
  pub url : Url
  pub user_or_host : Bytes
  pub port_or_pass : Bytes
  pub valid : Bool

-- The pass after a byte, or the call of `abort()`.
pub data Next : Type 0 where
  next : Pass → Next
  aborts : Next

-- `state = st`
abbrev pub enter : State → Pass → Next
enter st p = next (record p { state = st })

-- `valid = false; url = Url()`
abbrev pub refuse : Pass → Next
refuse p = next (record p { url = new_url; valid = false })

-- what `parse_` starts from
abbrev pub new_pass : Pass
new_pass = record {
  state = in_scheme;
  url = record new_url { path = b'/' ∷ [] };
  user_or_host = [];
  port_or_pass = [];
  valid = true;
}
