-- ===== src/Http/Response/Fields.antt =====
-- The header fields, and the empty line behind them.
use nicenet.Common.{
  ℕ, Bool, true, none, some, [], ◌∷◌, ◌++◌, ◌&&◌, ◌||◌, not, ◌==◌, if◌then◌else◌, empty_back,
}
use nicenet.Common.Text.{codes}
use nicenet.Http.Chars.{is_char, is_control, is_special, c_str}
use nicenet.Http.Numbers.{size_of_atoi}
use nicenet.Http.Request.Types.{HeaderItem, back, push_name, push_value}
use nicenet.Http.Request.Fields.{same_name, has_headers, find_connection, above_one}
use nicenet.Http.Response.Types.{
  Response, header_lws, header_name, space_before_header_value, header_value, expecting_newline_2,
  expecting_newline_3, post, chunk_size, Parsing, Advance, goes, completed, refused, raised, enter,
  enter_with, on_header, reserve,
}

-- `case HeaderLineStart`
unfoldable pub on_line_start : ℕ → Parsing → Advance
on_line_start c m =
    if c == b'\r'
    then enter expecting_newline_3 m
    else if has_headers m.resp.headers && (c == b' ' || c == b'\t')
    then enter header_lws m
    else if not (is_char c) || is_control c || is_special c
    then refused m
    else enter_with header_name
        (record (m.resp) {
          headers = m.resp.headers ++ (record { name = c ∷ []; value = [] } ∷ []);
        })
        m

-- `case HeaderLws`
unfoldable pub on_lws : ℕ → Parsing → Advance
on_lws c m =
    if c == b'\r'
    then enter expecting_newline_2 m
    else if c == b' ' || c == b'\t'
    then goes m
    else if is_control c
    then refused m
    else on_header (push_value c) header_value m

-- `case HeaderName`
unfoldable pub on_name : ℕ → Parsing → Advance
on_name c m =
    if c == b':'
    then enter space_before_header_value m
    else if not (is_char c) || is_control c || is_special c
    then refused m
    else on_header (push_name c) m.state m

-- what the end of a field does to the parser
unfoldable pub note_header : HeaderItem → Parsing → Advance
note_header h m =
    if same_name h.name (codes "Content-Length")
    then (let size = size_of_atoi (c_str h.value) in
        reserve size (goes (record m { state = expecting_newline_2; content_size = size })))
    else if same_name h.name (codes "Transfer-Encoding")
    then (if same_name (h.value) (codes "chunked")
        then goes (record m { state = expecting_newline_2; chunked = true })
        else enter expecting_newline_2 m)
    else enter expecting_newline_2 m

-- `case HeaderValue`
unfoldable pub on_value : ℕ → Parsing → Advance
on_value c m =
    if c == b'\r'
    then (elim (back m.resp.headers) [ none ↦ raised empty_back | some h ↦ note_header h m ])
    else if is_control c
    then refused m
    else on_header (push_value c) m.state m

unfoldable pub keeps_alive : Response → Bool
unfolding find_connection
keeps_alive r = elim (find_connection r.headers) [
  | some h ↦ same_name h.value (codes "Keep-Alive")
  | none ↦
      if above_one r.version_major || (r.version_major == 1 && r.version_minor == 1)
      then true
      else r.keep_alive
]

-- `case ExpectingNewline_3`
unfoldable pub on_newline_3 : ℕ → Parsing → Advance
on_newline_3 c m =
    let m' = record m { resp = record (m.resp) { keep_alive = keeps_alive m.resp } } in
    if m.chunked
    then enter chunk_size m'
    else if m.content_size == 0
    then (if c == b'\n' then completed m' else refused m')
    else enter post m'
