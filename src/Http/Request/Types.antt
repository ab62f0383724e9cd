-- ===== src/Http/Request/Types.antt =====
-- The request, the state of the parser, and the result of one byte.
use nicenet.Common.{
  ℕ, ◌-◌, ◌^◌, ◌%◌, Bool, false, Option, none, some, List, [], ◌∷◌, ◌++◌, Bytes, Fault,
}
use nicenet.Common.{length_error, empty_back, ltb, if◌then◌else◌}

pub record HeaderItem : Type 0 where
  pub name : Bytes
  pub value : Bytes

pub record Request : Type 0 where
  pub method : Bytes
  pub uri : Bytes
  pub version_major : ℕ
  pub version_minor : ℕ
  pub headers : List HeaderItem
  pub content : Bytes
  pub keep_alive : Bool
  pub remain_size : ℕ

-- `HttpRequestBase()`
abbrev pub new_request : Request
new_request = record {
  method = [];
  uri = [];
  version_major = 0;
  version_minor = 0;
  headers = [];
  content = [];
  keep_alive = false;
  remain_size = 0;
}

-- The enumerators that a `case` of the request parser names; the others lead to an error at once.
pub data State : Type 0 where
  request_method_start request_method request_uri_start request_uri : State
  request_http_version_h request_http_version_ht request_http_version_htt : State
  request_http_version_http request_http_version_slash : State
  request_http_version_major_start request_http_version_major : State
  request_http_version_minor_start request_http_version_minor : State
  response_http_version_new_line : State
  header_line_start header_lws header_name space_before_header_value header_value : State
  expecting_newline_2 expecting_newline_3 post : State
  chunk_size chunk_extension_name chunk_extension_value : State
  chunk_size_new_line chunk_size_new_line_2 chunk_size_new_line_3 : State
  chunk_trailer_name chunk_trailer_value : State
  chunk_data_new_line_1 chunk_data_new_line_2 chunk_data : State

-- The parser's own fields with the request that it works on.
pub record Parsing : Type 0 where
  pub state : State
  pub content_size : ℕ
  pub chunk_size_str : Bytes
  pub chunk_left : ℕ
  pub chunked : Bool
  pub req : Request

-- `HttpRequestParser()`, given a request
abbrev pub new_parsing : Request → Parsing
new_parsing r = record {
  state = request_method_start;
  content_size = 0;
  chunk_size_str = [];
  chunk_left = 0;
  chunked = false;
  req = r;
}

-- After one byte the loop goes on, or `consume` returns, or the program faults.
pub data Advance : Type 0 where
  goes : Parsing → Advance
  completed : Parsing → Advance
  refused : Parsing → Advance
  raised : Fault → Advance

abbrev pub enter : State → Parsing → Advance
enter st m = goes (record m { state = st })

-- on `req`, with the state after it
abbrev pub enter_with : State → Request → Parsing → Advance
enter_with st r m = goes (record m { state = st; req = r })

-- `req.remainSize = int(end - begin); return ParsingCompleted;`
abbrev pub complete_with : ℕ → Parsing → Advance
complete_with left m = completed (record m { req = record (m.req) { remain_size = left % 2 ^ 32 } })

-- `v.back()`, changed in place
unfoldable pub on_back {ℓ} : {A : Type ℓ} → (A → A) → List A → Option (List A)
on_back f [] = none
on_back f (x ∷ []) = some (f x ∷ [])
on_back f (x ∷ y ∷ xs) = elim (on_back f (y ∷ xs)) [ none ↦ none | some zs ↦ some (x ∷ zs) ]

unfoldable pub back {ℓ} : {A : Type ℓ} → List A → Option A
back [] = none
back (x ∷ []) = some x
back (x ∷ y ∷ xs) = back (y ∷ xs)

-- `req.headers.back().name.push_back(c)` and the same for `value`
abbrev pub on_header : (HeaderItem → HeaderItem) → State → Parsing → Advance
on_header f st m = elim (on_back f m.req.headers) [
  | none ↦ raised empty_back
  | some hs ↦ enter_with st (record (m.req) { headers = hs }) m
]

abbrev pub push_name : ℕ → HeaderItem → HeaderItem
push_name c h = record h { name = h.name ++ c ∷ [] }

abbrev pub push_value : ℕ → HeaderItem → HeaderItem
push_value c h = record h { value = h.value ++ c ∷ [] }

-- `reserve(n)`, in front of what follows it
abbrev pub reserve : ℕ → Advance → Advance
reserve n next = if ltb (2 ^ 63 - 1) n then raised length_error else next
