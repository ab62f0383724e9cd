-- ===== src/Http/Request/Machine.antt =====
-- `consume`: one byte after another, until a `case` returns.
use nicenet.Common.{ℕ, [], ◌∷◌, length, Bytes, Fault}
use nicenet.Http.Request.Types.{
  State, request_method_start, request_method, request_uri_start, request_uri,
  request_http_version_h, request_http_version_ht, request_http_version_htt,
  request_http_version_http, request_http_version_slash, request_http_version_major_start,
  request_http_version_major, request_http_version_minor_start, request_http_version_minor,
  response_http_version_new_line, header_line_start, header_lws, header_name,
  space_before_header_value, header_value, expecting_newline_2, expecting_newline_3, post,
  chunk_size, chunk_extension_name, chunk_extension_value, chunk_size_new_line,
  chunk_size_new_line_2, chunk_size_new_line_3, chunk_trailer_name, chunk_trailer_value,
  chunk_data_new_line_1, chunk_data_new_line_2, chunk_data, Request, Parsing, Advance, goes,
  completed, refused, raised,
}
use nicenet.Http.Request.Line.{
  on_method_start, on_method, on_uri_start, on_uri, expect, on_slash, on_major_start, on_major,
  on_minor_start, on_minor,
}
use nicenet.Http.Request.Fields.{on_line_start, on_lws, on_name, on_value, on_newline_3}
use nicenet.Http.Request.Body.{
  on_post, on_chunk_size, on_extension_name, on_skipped_value, on_size_new_line, on_size_new_line_2,
  on_size_new_line_3, on_trailer_name, on_chunk_data,
}

-- the `switch`; `left` is `end - begin` behind the byte `c`
unfoldable pub step_in : State → ℕ → ℕ → Parsing → Advance
step_in request_method_start left c m = on_method_start c m
step_in request_method left c m = on_method c m
step_in request_uri_start left c m = on_uri_start c m
step_in request_uri left c m = on_uri left c m
step_in request_http_version_h left c m = expect b'H' request_http_version_ht c m
step_in request_http_version_ht left c m = expect b'T' request_http_version_htt c m
step_in request_http_version_htt left c m = expect b'T' request_http_version_http c m
step_in request_http_version_http left c m = expect b'P' request_http_version_slash c m
step_in request_http_version_slash left c m = on_slash c m
step_in request_http_version_major_start left c m = on_major_start c m
step_in request_http_version_major left c m = on_major c m
step_in request_http_version_minor_start left c m = on_minor_start c m
step_in request_http_version_minor left c m = on_minor c m
step_in response_http_version_new_line left c m = expect b'\n' header_line_start c m
step_in header_line_start left c m = on_line_start c m
step_in header_lws left c m = on_lws c m
step_in header_name left c m = on_name c m
step_in space_before_header_value left c m = expect b' ' header_value c m
step_in header_value left c m = on_value c m
step_in expecting_newline_2 left c m = expect b'\n' header_line_start c m
step_in expecting_newline_3 left c m = on_newline_3 left c m
step_in post left c m = on_post left c m
step_in chunk_size left c m = on_chunk_size c m
step_in chunk_extension_name left c m = on_extension_name c m
step_in chunk_extension_value left c m = on_skipped_value c m
step_in chunk_size_new_line left c m = on_size_new_line c m
step_in chunk_size_new_line_2 left c m = on_size_new_line_2 c m
step_in chunk_size_new_line_3 left c m = on_size_new_line_3 left c m
step_in chunk_trailer_name left c m = on_trailer_name c m
step_in chunk_trailer_value left c m = on_skipped_value c m
step_in chunk_data_new_line_1 left c m = expect b'\r' chunk_data_new_line_2 c m
step_in chunk_data_new_line_2 left c m = expect b'\n' chunk_size c m
step_in chunk_data left c m = on_chunk_data c m

-- What `parse` returns, with the parser and the request as it leaves them.
pub data Outcome : Type 0 where
  parsing_completed : Parsing → Outcome
  parsing_incompleted : Parsing → Outcome
  parsing_error : Parsing → Outcome
  parsing_raised : Fault → Outcome

unfoldable pub consume : Parsing → Bytes → Outcome
consume m [] = parsing_incompleted m
consume m (c ∷ cs) = elim (step_in m.state (length cs) c m) [
  | goes m' ↦ consume m' cs
  | completed m' ↦ parsing_completed m'
  | refused m' ↦ parsing_error m'
  | raised e ↦ parsing_raised e
]

-- `parse(req, begin, end)` on a parser that is kept from call to call: `m` brings the parser's
-- fields, and the request is another.
unfoldable pub parse : Parsing → Request → Bytes → Outcome
unfolding consume
parse m r text = consume (record m { req = r }) text
