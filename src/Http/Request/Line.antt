-- ===== src/Http/Request/Line.antt =====
-- The request line: method, URI, version.
use nicenet.Common.{ℕ, ◌+◌, ◌-◌, ◌*◌, ◌%◌, ◌^◌, ◌||◌, not, ◌++◌, [], ◌∷◌, ◌==◌, if◌then◌else◌}
use nicenet.Http.Chars.{is_char, is_control, is_special, is_digit}
use nicenet.Http.Request.Types.{
  State, request_method, request_uri_start, request_uri, request_http_version_h,
  request_http_version_major_start, request_http_version_major, request_http_version_minor_start,
  request_http_version_minor, response_http_version_new_line, Parsing, Advance, goes, refused,
  enter, enter_with, complete_with,
}

-- `case RequestMethodStart`
unfoldable pub on_method_start : ℕ → Parsing → Advance
on_method_start c m =
    if not (is_char c) || is_control c || is_special c
    then refused m
    else enter_with request_method (record (m.req) { method = m.req.method ++ c ∷ [] }) m

-- `case RequestMethod`
unfoldable pub on_method : ℕ → Parsing → Advance
on_method c m =
    if c == b' '
    then enter request_uri_start m
    else if not (is_char c) || is_control c || is_special c
    then refused m
    else goes (record m { req = record (m.req) { method = m.req.method ++ c ∷ [] } })

-- `case RequestUriStart`
unfoldable pub on_uri_start : ℕ → Parsing → Advance
on_uri_start c m =
    if is_control c
    then refused m
    else enter_with request_uri (record (m.req) { uri = m.req.uri ++ c ∷ [] }) m

-- `case RequestUri`; `left` is `end - begin`
unfoldable pub on_uri : ℕ → ℕ → Parsing → Advance
on_uri left c m =
    if c == b' '
    then enter request_http_version_h m
    else if c == b'\r'
    then complete_with left
        (record m { req = record (m.req) { version_major = 0; version_minor = 9 } })
    else if is_control c
    then refused m
    else goes (record m { req = record (m.req) { uri = m.req.uri ++ c ∷ [] } })

-- the cases of one expected character
unfoldable pub expect : ℕ → State → ℕ → Parsing → Advance
expect x next c m = if c == x then enter next m else refused m

-- `case RequestHttpVersion_slash`
unfoldable pub on_slash : ℕ → Parsing → Advance
on_slash c m =
    if c == b'/'
    then enter_with request_http_version_major_start
        (record (m.req) { version_major = 0; version_minor = 0 }) m
    else refused m

-- `v * 10 + input - '0'` on an int, kept to its 32 bits
abbrev pub next_digit : ℕ → ℕ → ℕ
next_digit v c = (v * 10 + (c - b'0')) % 2 ^ 32

-- `case RequestHttpVersion_majorStart`
unfoldable pub on_major_start : ℕ → Parsing → Advance
on_major_start c m =
    if is_digit c
    then enter_with request_http_version_major (record (m.req) { version_major = c - b'0' }) m
    else refused m

-- `case RequestHttpVersion_major`
unfoldable pub on_major : ℕ → Parsing → Advance
on_major c m =
    if c == b'.'
    then enter request_http_version_minor_start m
    else if is_digit c
    then goes
        (record m { req = record (m.req) { version_major = next_digit m.req.version_major c } })
    else refused m

-- `case RequestHttpVersion_minorStart`
unfoldable pub on_minor_start : ℕ → Parsing → Advance
on_minor_start c m =
    if is_digit c
    then enter_with request_http_version_minor (record (m.req) { version_minor = c - b'0' }) m
    else refused m

-- `case RequestHttpVersion_minor`
unfoldable pub on_minor : ℕ → Parsing → Advance
on_minor c m =
    if c == b'\r'
    then enter response_http_version_new_line m
    else if is_digit c
    then goes
        (record m { req = record (m.req) { version_minor = next_digit m.req.version_minor c } })
    else refused m
