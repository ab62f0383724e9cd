-- ===== src/Http/Response/Machine.antt =====
-- `consume`: one byte after another, until a `case` returns.
use nicenet.Common.{ℕ, Bytes, [], ◌∷◌, Fault}
use nicenet.Http.Response.Types.{
  Response, State, response_status_start, response_http_version_ht, response_http_version_htt,
  response_http_version_http, response_http_version_slash, response_http_version_major_start,
  response_http_version_major, response_http_version_minor_start, response_http_version_minor,
  response_http_version_status_code_start, response_http_version_status_code,
  response_http_version_status_text_start, response_http_version_status_text,
  response_http_version_new_line, header_line_start, header_lws, header_name,
  space_before_header_value, header_value, expecting_newline_2, expecting_newline_3, post,
  chunk_size, chunk_extension_name, chunk_extension_value, chunk_size_new_line,
  chunk_size_new_line_2, chunk_size_new_line_3, chunk_trailer_name, chunk_trailer_value,
  chunk_data_new_line_1, chunk_data_new_line_2, chunk_data, Parsing, Advance, goes, completed,
  refused, raised,
}
use nicenet.Http.Response.Line.{
  expect, on_slash, on_major_start, on_major, on_minor_start, on_minor, on_code_start, on_code,
  on_text_start, on_text,
}
use nicenet.Http.Response.Fields.{on_line_start, on_lws, on_name, on_value, on_newline_3}
use nicenet.Http.Response.Body.{
  on_post, on_chunk_size, on_extension_name, on_skipped_value, on_size_new_line, on_size_new_line_2,
  on_size_new_line_3, on_trailer_name, on_chunk_data,
}

-- the `switch`
unfoldable pub step_in : State → ℕ → Parsing → Advance
step_in response_status_start c m = expect b'H' response_http_version_ht c m
step_in response_http_version_ht c m = expect b'T' response_http_version_htt c m
step_in response_http_version_htt c m = expect b'T' response_http_version_http c m
step_in response_http_version_http c m = expect b'P' response_http_version_slash c m
step_in response_http_version_slash c m = on_slash c m
step_in response_http_version_major_start c m = on_major_start c m
step_in response_http_version_major c m = on_major c m
step_in response_http_version_minor_start c m = on_minor_start c m
step_in response_http_version_minor c m = on_minor c m
step_in response_http_version_status_code_start c m = on_code_start c m
step_in response_http_version_status_code c m = on_code c m
step_in response_http_version_status_text_start c m = on_text_start c m
step_in response_http_version_status_text c m = on_text c m
step_in response_http_version_new_line c m = expect b'\n' header_line_start c m
step_in header_line_start c m = on_line_start c m
step_in header_lws c m = on_lws c m
step_in header_name c m = on_name c m
step_in space_before_header_value c m = expect b' ' header_value c m
step_in header_value c m = on_value c m
step_in expecting_newline_2 c m = expect b'\n' header_line_start c m
step_in expecting_newline_3 c m = on_newline_3 c m
step_in post c m = on_post c m
step_in chunk_size c m = on_chunk_size c m
step_in chunk_extension_name c m = on_extension_name c m
step_in chunk_extension_value c m = on_skipped_value c m
step_in chunk_size_new_line c m = on_size_new_line c m
step_in chunk_size_new_line_2 c m = on_size_new_line_2 c m
step_in chunk_size_new_line_3 c m = on_size_new_line_3 c m
step_in chunk_trailer_name c m = on_trailer_name c m
step_in chunk_trailer_value c m = on_skipped_value c m
step_in chunk_data_new_line_1 c m = expect b'\r' chunk_data_new_line_2 c m
step_in chunk_data_new_line_2 c m = expect b'\n' chunk_size c m
step_in chunk_data c m = on_chunk_data c m

-- What `parse` returns, with the parser and the response as it leaves them.
pub data Outcome : Type 0 where
  parsing_completed : Parsing → Outcome
  parsing_incompleted : Parsing → Outcome
  parsing_error : Parsing → Outcome
  parsing_raised : Fault → Outcome

unfoldable pub consume : Parsing → Bytes → Outcome
consume m [] = parsing_incompleted m
consume m (c ∷ cs) = elim (step_in m.state c m) [
  | goes m' ↦ consume m' cs
  | completed m' ↦ parsing_completed m'
  | refused m' ↦ parsing_error m'
  | raised e ↦ parsing_raised e
]

-- `parse(resp, begin, end)`
unfoldable pub parse : Parsing → Response → Bytes → Outcome
unfolding consume
parse m r text = consume (record m { resp = r }) text
