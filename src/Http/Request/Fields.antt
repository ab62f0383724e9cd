-- ===== src/Http/Request/Fields.antt =====
-- The header fields, and the empty line behind them.
use nicenet.Common.{
  ℕ, ◌^◌, Bool, true, false, Option, none, some, List, [], ◌∷◌, ◌++◌, ◌&&◌, ◌||◌, not, ltb, ◌==◌,
  if◌then◌else◌, Bytes, empty_back,
}
use nicenet.Common.Text.{codes, bytes_eq}
use nicenet.Text.{str_case_cmp}
use nicenet.Http.Chars.{is_char, is_control, is_special, c_str}
use nicenet.Http.Numbers.{size_of_atoi}
use nicenet.Http.Request.Types.{
  HeaderItem, Request, header_lws, header_name, space_before_header_value, header_value,
  expecting_newline_2, expecting_newline_3, post, chunk_size, Parsing, Advance, goes, refused,
  raised, enter, enter_with, complete_with, back, on_header, push_name, push_value, reserve,
}

abbrev pub same_name : Bytes → Bytes → Bool
same_name a b = str_case_cmp (c_str a) b == 0

abbrev pub has_headers : List HeaderItem → Bool
has_headers [] = false
has_headers (h ∷ hs) = true

-- `case HeaderLineStart`
unfoldable pub on_line_start : ℕ → Parsing → Advance
on_line_start c m =
    if c == b'\r'
    then enter expecting_newline_3 m
    else if has_headers m.req.headers && (c == b' ' || c == b'\t')
    then enter header_lws m
    else if not (is_char c) || is_control c || is_special c
    then refused m
    else enter_with header_name
        (record (m.req) { headers = m.req.headers ++ (record { name = c ∷ []; value = [] } ∷ []) })
        m

-- `case HeaderLws`
unfoldable pub on_lws : ℕ → Parsing → Advance
on_lws c m =
    if c == b'\r'
    then enter expecting_newline_2 m
    else if c == b' ' || c == b'\t'
    then goes m
    else if is_control c
    then refused m
    else on_header (push_value c) header_value m

-- `case HeaderName`
unfoldable pub on_name : ℕ → Parsing → Advance
on_name c m =
    if c == b':'
    then enter space_before_header_value m
    else if not (is_char c) || is_control c || is_special c
    then refused m
    else on_header (push_name c) m.state m

abbrev pub has_body : Bytes → Bool
has_body method = bytes_eq method (codes "POST") || bytes_eq method (codes "PUT")

-- what the end of a field does to the parser, for a request that can have a body
unfoldable pub note_header : HeaderItem → Parsing → Advance
note_header h m =
    if same_name h.name (codes "Content-Length")
    then (let size = size_of_atoi (c_str h.value) in
        reserve size (goes (record m { state = expecting_newline_2; content_size = size })))
    else if same_name h.name (codes "Transfer-Encoding")
    then (if same_name h.value (codes "chunked")
        then goes (record m { state = expecting_newline_2; chunked = true })
        else enter expecting_newline_2 m)
    else enter expecting_newline_2 m

-- `case HeaderValue`
unfoldable pub on_value : ℕ → Parsing → Advance
on_value c m =
    if c == b'\r'
    then (if has_body m.req.method
        then (elim (back m.req.headers) [ none ↦ raised empty_back | some h ↦ note_header h m ])
        else enter expecting_newline_2 m)
    else if is_control c
    then refused m
    else on_header (push_value c) m.state m

-- `std::find_if(…, checkIfConnection)`
unfoldable pub find_connection : List HeaderItem → Option HeaderItem
find_connection [] = none
find_connection (h ∷ hs) =
    let rest = find_connection hs in if same_name h.name (codes "Connection") then some h else rest

-- an int as its 32 bits: greater than 1
abbrev pub above_one : ℕ → Bool
above_one v = ltb 1 v && ltb v (2 ^ 31)

unfoldable pub keeps_alive : Request → Bool
unfolding find_connection
keeps_alive r = elim (find_connection r.headers) [
  | some h ↦ same_name h.value (codes "Keep-Alive")
  | none ↦
      if above_one r.version_major || (r.version_major == 1 && r.version_minor == 1)
      then true
      else r.keep_alive
]

-- `case ExpectingNewline_3`; `left` is `end - begin`
unfoldable pub on_newline_3 : ℕ → ℕ → Parsing → Advance
on_newline_3 left c m =
    let m' = record m { req = record (m.req) { keep_alive = keeps_alive m.req } } in
    if m.chunked
    then enter chunk_size m'
    else if m.content_size == 0
    then (if c == b'\n' then complete_with left m' else refused m')
    else enter post m'
