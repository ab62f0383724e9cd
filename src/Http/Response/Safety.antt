-- ===== src/Http/Response/Safety.antt =====
-- The uses of `back()` in the parser, on one response object.
use nicenet.Common.{ℕ, ◌≡◌, ◌≢◌, refl, arith, true, List, [], ◌∷◌, Bytes, empty_back}
use nicenet.Http.Request.Types.{HeaderItem, push_name, push_value}
use nicenet.Http.Request.Fields.{has_headers}
use nicenet.Http.Request.Safety.{on_back_headers, back_headers, has_headers-append}
use nicenet.Http.Response.Types.{
  Response, State, header_lws, header_name, space_before_header_value, header_value,
  header_line_start, Parsing, Advance, goes, completed, refused, raised, new_parsing,
}
use nicenet.Http.Response.Line.{
  expect, on_slash, on_major_start, on_major, on_minor_start, on_minor, on_code_start, on_code,
  on_text_start, on_text,
}
use nicenet.Http.Response.Fields.{
  on_line_start, on_lws, on_name, on_value, note_header, on_newline_3,
}
use nicenet.Http.Response.Body.{
  on_post, on_chunk_size, on_extension_name, on_skipped_value, on_size_new_line, on_size_new_line_2,
  on_size_new_line_3, on_trailer_name, on_chunk_data,
}
use nicenet.Http.Response.Machine.{step_in, parsing_raised, consume}
use nicenet.Http.Response.Chunks.{after, consume-after}

-- Inside a field there is a header to write to.
abbrev Inv : State → List HeaderItem → Type 0
Inv header_lws hs = has_headers hs ≡ true
Inv header_name hs = has_headers hs ≡ true
Inv space_before_header_value hs = has_headers hs ≡ true
Inv header_value hs = has_headers hs ≡ true
Inv _ hs = Unit

abbrev IsSafe : Advance → Type 0
IsSafe (goes m) = Inv m.state m.resp.headers
IsSafe (completed m) = Unit
IsSafe (refused m) = Unit
IsSafe (raised e) = e ≢ empty_back

note_header-IsSafe : (h : HeaderItem) (m : Parsing) → IsSafe (note_header h m)
unfolding note_header
note_header-IsSafe h m = ground arith

module _ (c : ℕ) (m : Parsing) where
  lws-IsSafe : has_headers m.resp.headers ≡ true → IsSafe (on_lws c m)
  unfolding on_lws
  lws-IsSafe h =
      let (y, ys, e) = on_back_headers (push_value c) m.resp.headers h in ground (arith, e)

  name-IsSafe : m.state ≡ header_name → has_headers m.resp.headers ≡ true → IsSafe (on_name c m)
  unfolding on_name
  name-IsSafe s h =
      let (y, ys, e) = on_back_headers (push_name c) m.resp.headers h in ground (arith, e)

  value-IsSafe : m.state ≡ header_value → has_headers m.resp.headers ≡ true → IsSafe (on_value c m)
  unfolding on_value
  value-IsSafe s h =
      let (y, ys, e) = on_back_headers (push_value c) m.resp.headers h in
      let (z, last) = back_headers m.resp.headers h in
      ground (arith, e, last, note_header-IsSafe z m)

  line_start-IsSafe : IsSafe (on_line_start c m)
  unfolding on_line_start
  line_start-IsSafe =
      ground (arith, has_headers-append m.resp.headers (record { name = c ∷ []; value = [] }))

step_in-IsSafe :
    (st : State) (c : ℕ) (m : Parsing)
    → m.state ≡ st
    → Inv st m.resp.headers
    → IsSafe (step_in st c m)
unfolding step_in expect on_slash on_major_start on_major on_minor_start on_minor on_code_start
    on_code on_text_start on_text on_newline_3 on_post on_chunk_size on_extension_name
    on_skipped_value on_size_new_line on_size_new_line_2 on_size_new_line_3 on_trailer_name
    on_chunk_data
step_in-IsSafe header_lws c m e h = lws-IsSafe c m h
step_in-IsSafe header_name c m e h = name-IsSafe c m e h
step_in-IsSafe header_value c m e h = value-IsSafe c m e h
step_in-IsSafe header_line_start c m e h = line_start-IsSafe c m
step_in-IsSafe _ c m e h = ground arith

after-IsSafe :
    (a : Advance) (cs : Bytes)
    → IsSafe a
    → ((m : Parsing) → Inv m.state m.resp.headers → consume m cs ≢ parsing_raised empty_back)
    → after a cs ≢ parsing_raised empty_back
after-IsSafe (goes m) cs h ih = ih m h
after-IsSafe (completed m) cs h ih = λ p. cc
after-IsSafe (refused m) cs h ih = λ p. cc
after-IsSafe (raised x) cs h ih = λ p. h (cc)

consume-Inv :
    (text : Bytes) (m : Parsing)
    → Inv m.state m.resp.headers
    → consume m text ≢ parsing_raised empty_back
consume-Inv [] m h = unfold consume in λ p. cc
consume-Inv (c ∷ cs) m h =
    rw (consume-after m c cs (step_in m.state c m) refl)
      (after-IsSafe (step_in m.state c m) cs (step_in-IsSafe m.state c m refl h) (consume-Inv cs))

-- A new response parser never takes `back()` of an empty vector, on any text and into any
-- response object.
pub consume_response_safe :
    (r : Response) (text : Bytes) → consume (new_parsing r) text ≢ parsing_raised empty_back
consume_response_safe r text = consume-Inv text (new_parsing r) tt
