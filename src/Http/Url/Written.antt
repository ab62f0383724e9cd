-- ===== src/Http/Url/Written.antt =====
-- URLs as they are written, and what `parse` makes of them.
use nicenet.Common.{ℕ, ◌%◌, ◌^◌, ◌<◌, ◌≡◌, Option, none, some, [], ◌∷◌, ◌++◌, All, Bytes, false}
use nicenet.Http.Chars.{is_digit}
use nicenet.Http.Url.Types.{Url, new_url, State, in_path, in_query, in_fragment}
use nicenet.Http.Url.Cases.{port_of}
use nicenet.Http.Url.Port.{decimal}
use nicenet.Http.Url.Scan.{
  SchemeByte, HostByte, PasswordByte, Digit, PathByte, QueryByte, without_marks,
}

-- Digits, the first byte that is none, and the rest.
pub record Password : Type 0 where
  pub lead : Bytes
  pub mark : ℕ
  pub more : Bytes

pub data User : Type 0 where
  nobody : User
  named : Bytes → User
  known : Bytes → Password → User

pub record Parts : Type 0 where
  pub scheme : Bytes
  pub user : User
  pub host : Bytes
  pub port : Option Bytes
  pub path : Bytes
  pub query : Option Bytes
  pub fragment : Option Bytes

abbrev pub write_user : User → Bytes → Bytes
write_user nobody t = t
write_user (named u) t = u ++ (b'@' ∷ t)
write_user (known u w) t = u ++ (b':' ∷ (w.lead ++ (w.mark ∷ (w.more ++ (b'@' ∷ t)))))

abbrev pub write_port : Option Bytes → Bytes → Bytes
write_port none t = t
write_port (some p) t = b':' ∷ (p ++ t)

abbrev pub write_fragment : Option Bytes → Bytes
write_fragment none = []
write_fragment (some f) = b'#' ∷ f

abbrev pub write_query : Option Bytes → Bytes → Bytes
write_query none t = t
write_query (some q) t = b'?' ∷ (q ++ t)

-- The path with its slash, and what follows.
abbrev pub write_target : Parts → Bytes
write_target p = b'/' ∷ (p.path ++ write_query p.query (write_fragment p.fragment))

abbrev pub write_authority : Parts → Bytes → Bytes
write_authority p t = write_user p.user (p.host ++ write_port p.port t)

abbrev pub write : Parts → Bytes
write p = p.scheme ++ (b':' ∷ b'/' ∷ b'/' ∷ write_authority p (write_target p))

abbrev pub IsPassword : Password → Type 0
IsPassword w =
    All Digit w.lead × ((is_digit w.mark ≡ false) × (PasswordByte w.mark × All PasswordByte w.more))

abbrev pub IsUser : User → Type 0
IsUser nobody = Unit
IsUser (named u) = All HostByte u
IsUser (known u w) = All HostByte u × IsPassword w

abbrev pub AllSome : (ℕ → Type 0) → Option Bytes → Type 0
AllSome P none = Unit
AllSome P (some xs) = All P xs

-- A port has digits only, and a number that a `long` has room for.
abbrev pub IsPort : Option Bytes → Type 0
IsPort none = Unit
IsPort (some xs) = All Digit xs × (decimal 0 xs < 2 ^ 63)

pub record IsParts (p : Parts) : Type 0 where
  pub scheme_ok : All SchemeByte p.scheme
  pub user_ok : IsUser p.user
  pub host_ok : All HostByte p.host
  pub port_ok : IsPort p.port
  pub path_ok : All PathByte p.path
  pub query_ok : AllSome QueryByte p.query

abbrev pub user_name : User → Bytes
user_name nobody = []
user_name (named u) = u
user_name (known u w) = u

abbrev pub user_password : User → Bytes
user_password (known u w) = (w.lead ++ w.mark ∷ []) ++ w.more
user_password _ = []

abbrev pub or_empty : Option Bytes → Bytes
or_empty none = []
or_empty (some xs) = xs

abbrev pub integer_of : Option Bytes → ℕ
integer_of none = 0
integer_of (some xs) = port_of xs

-- The object after the scheme and the user, and after the host and the port.
abbrev pub started : Bytes → User → Url
started s u = record new_url {
  scheme = s;
  username = user_name u;
  password = user_password u;
  path = b'/' ∷ [];
}

abbrev pub hosted : Bytes → User → Bytes → Option Bytes → Url
hosted s u h port = record (started s u) {
  hostname = h;
  port = or_empty port;
  integer_port = integer_of port;
}

-- The object at the end, in the words of the code.
abbrev pub held : Parts → Url
held p = record (hosted p.scheme p.user p.host p.port) {
  path = b'/' ∷ p.path;
  query = without_marks (or_empty p.query);
  fragment = or_empty p.fragment;
}

-- The last 16 bits of the number that the digits of a port stand for.
abbrev pub port_number : Option Bytes → ℕ
port_number none = 0
port_number (some xs) = decimal 0 xs % 2 ^ 16

-- What the object holds of a URL: the query has lost its question marks.
abbrev pub read : Parts → Url
read p = record {
  scheme = p.scheme;
  username = user_name p.user;
  password = user_password p.user;
  hostname = p.host;
  port = or_empty p.port;
  path = b'/' ∷ p.path;
  query = without_marks (or_empty p.query);
  fragment = or_empty p.fragment;
  integer_port = port_number p.port;
}

abbrev pub last_state : Parts → State
last_state p = elim p.fragment [
  | some _ ↦ in_fragment
  | none ↦ elim p.query [ some _ ↦ in_query | none ↦ in_path ]
]
