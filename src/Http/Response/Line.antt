-- ===== src/Http/Response/Line.antt =====
-- The status line: version, code, text.
use nicenet.Common.{ℕ, ◌-◌, ◌||◌, ◌++◌, [], ◌∷◌, ltb, ◌==◌, if◌then◌else◌}
use nicenet.Http.Chars.{is_char, is_digit}
use nicenet.Http.Request.Line.{next_digit}
use nicenet.Http.Response.Types.{
  State, response_http_version_major_start, response_http_version_major,
  response_http_version_minor_start, response_http_version_minor,
  response_http_version_status_code_start, response_http_version_status_code,
  response_http_version_status_text_start, response_http_version_status_text,
  response_http_version_new_line, Parsing, Advance, goes, refused, enter, enter_with,
}

-- the cases of one expected character
unfoldable pub expect : ℕ → State → ℕ → Parsing → Advance
expect x next c m = if c == x then enter next m else refused m

-- `case ResponseHttpVersion_slash`
unfoldable pub on_slash : ℕ → Parsing → Advance
on_slash c m =
    if c == b'/'
    then enter_with response_http_version_major_start
        (record (m.resp) { version_major = 0; version_minor = 0 }) m
    else refused m

-- `case ResponseHttpVersion_majorStart`
unfoldable pub on_major_start : ℕ → Parsing → Advance
on_major_start c m =
    if is_digit c
    then enter_with response_http_version_major (record (m.resp) { version_major = c - b'0' }) m
    else refused m

-- `case ResponseHttpVersion_major`
unfoldable pub on_major : ℕ → Parsing → Advance
on_major c m =
    if c == b'.'
    then enter response_http_version_minor_start m
    else if is_digit c
    then goes
        (record m { resp = record (m.resp) { version_major = next_digit m.resp.version_major c } })
    else refused m

-- `case ResponseHttpVersion_minorStart`
unfoldable pub on_minor_start : ℕ → Parsing → Advance
on_minor_start c m =
    if is_digit c
    then enter_with response_http_version_minor (record (m.resp) { version_minor = c - b'0' }) m
    else refused m

-- `case ResponseHttpVersion_minor`
unfoldable pub on_minor : ℕ → Parsing → Advance
on_minor c m =
    if c == b' '
    then enter_with response_http_version_status_code_start (record (m.resp) { status_code = 0 }) m
    else if is_digit c
    then goes
        (record m { resp = record (m.resp) { version_minor = next_digit m.resp.version_minor c } })
    else refused m

-- `case ResponseHttpVersion_statusCodeStart`
unfoldable pub on_code_start : ℕ → Parsing → Advance
on_code_start c m =
    if is_digit c
    then enter_with response_http_version_status_code (record (m.resp) { status_code = c - b'0' }) m
    else refused m

-- `case ResponseHttpVersion_statusCode`
unfoldable pub on_code : ℕ → Parsing → Advance
on_code c m =
    if is_digit c
    then goes
        (record m { resp = record (m.resp) { status_code = next_digit m.resp.status_code c } })
    else if ltb m.resp.status_code 100 || ltb 999 m.resp.status_code
    then refused m
    else if c == b' '
    then enter response_http_version_status_text_start m
    else refused m

-- `case ResponseHttpVersion_statusTextStart`
unfoldable pub on_text_start : ℕ → Parsing → Advance
on_text_start c m =
    if is_char c
    then enter_with response_http_version_status_text
        (record (m.resp) { status = m.resp.status ++ c ∷ [] }) m
    else refused m

-- `case ResponseHttpVersion_statusText`
unfoldable pub on_text : ℕ → Parsing → Advance
on_text c m =
    if c == b'\r'
    then enter response_http_version_new_line m
    else if is_char c
    then goes (record m { resp = record (m.resp) { status = m.resp.status ++ c ∷ [] } })
    else refused m
