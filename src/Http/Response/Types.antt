-- ===== src/Http/Response/Types.antt =====
-- The response, the state of the parser, and the result of one byte.
use nicenet.Common.{ℕ, ◌-◌, ◌^◌, Bool, false, none, some, List, [], Bytes, Fault}
use nicenet.Common.{length_error, empty_back, ltb, if◌then◌else◌}
use nicenet.Http.Request.Types.{HeaderItem, on_back}

pub record Response : Type 0 where
  pub version_major : ℕ
  pub version_minor : ℕ
  pub headers : List HeaderItem
  pub content : Bytes
  pub keep_alive : Bool
  pub status_code : ℕ
  pub status : Bytes

-- `HttpResponseBase()`
abbrev pub new_response : Response
new_response = record {
  version_major = 1;
  version_minor = 1;
  headers = [];
  content = [];
  keep_alive = false;
  status_code = 404;
  status = [];
}

pub data State : Type 0 where
  response_status_start response_http_version_ht response_http_version_htt : State
  response_http_version_http response_http_version_slash : State
  response_http_version_major_start response_http_version_major : State
  response_http_version_minor_start response_http_version_minor : State
  response_http_version_status_code_start response_http_version_status_code : State
  response_http_version_status_text_start response_http_version_status_text : State
  response_http_version_new_line : State
  header_line_start header_lws header_name space_before_header_value header_value : State
  expecting_newline_2 expecting_newline_3 post : State
  chunk_size chunk_extension_name chunk_extension_value : State
  chunk_size_new_line chunk_size_new_line_2 chunk_size_new_line_3 : State
  chunk_trailer_name chunk_trailer_value : State
  chunk_data_new_line_1 chunk_data_new_line_2 chunk_data : State

-- The parser's own fields with the response that it works on.
pub record Parsing : Type 0 where
  pub state : State
  pub content_size : ℕ
  pub chunk_size_str : Bytes
  pub chunk_left : ℕ
  pub chunked : Bool
  pub resp : Response

-- `HttpResponseParser()`, given a response
abbrev pub new_parsing : Response → Parsing
new_parsing r = record {
  state = response_status_start;
  content_size = 0;
  chunk_size_str = [];
  chunk_left = 0;
  chunked = false;
  resp = r;
}

-- After one byte the loop goes on, or `consume` returns, or the program faults.
pub data Advance : Type 0 where
  goes : Parsing → Advance
  completed : Parsing → Advance
  refused : Parsing → Advance
  raised : Fault → Advance

abbrev pub enter : State → Parsing → Advance
enter st m = goes (record m { state = st })

-- on `resp`, with the state after it
abbrev pub enter_with : State → Response → Parsing → Advance
enter_with st r m = goes (record m { state = st; resp = r })

-- `resp.headers.back().name.push_back(c)` and the same for `value`
abbrev pub on_header : (HeaderItem → HeaderItem) → State → Parsing → Advance
on_header f st m = elim (on_back f m.resp.headers) [
  | none ↦ raised empty_back
  | some hs ↦ enter_with st (record (m.resp) { headers = hs }) m
]

-- `reserve(n)`, in front of what follows it
abbrev pub reserve : ℕ → Advance → Advance
reserve n next = if ltb (2 ^ 63 - 1) n then raised length_error else next
