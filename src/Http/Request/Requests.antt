-- ===== src/Http/Request/Requests.antt =====
-- Whole requests: what `parse` makes of the text that a client writes.
use nicenet.Common.{
  ℕ, ◌-◌, ◌%◌, ◌^◌, ◌<◌, ◌≡◌, ◌∙◌, refl, arith, true, false, List, [], ◌∷◌, ◌++◌, append_assoc,
  length, All, All-append_left, Bytes, le→ltb,
}
use nicenet.Common.Text.{codes}
use nicenet.Http.Chars.{c_str}
use nicenet.Http.Numbers.{size_of_atoi}
use nicenet.Http.Request.Types.{
  HeaderItem, Request, header_line_start, header_value, expecting_newline_2, expecting_newline_3,
  post, Parsing, goes, completed, new_request, new_parsing,
}
use nicenet.Http.Request.Line.{expect}
use nicenet.Http.Request.Fields.{
  same_name, has_body, note_header, on_value, keeps_alive, on_newline_3,
}
use nicenet.Http.Request.Body.{on_post, decrement}
use nicenet.Http.Request.Machine.{step_in, parsing_completed, consume, parse}
use nicenet.Http.Request.Render.{Head, render, lines, IsHead, IsField, at, consume_goes, run_line}
use nicenet.Http.Request.Headers.{
  with_field, IsQuiet, back-last, run_field, run_quiet, run_empty_line,
}

-- What the request object holds at the end of the fields.
abbrev pub received : Head → Request
received h = record new_request {
  method = h.method;
  uri = h.uri;
  version_major = h.major;
  version_minor = h.minor;
  headers = h.headers;
}

-- The request that `parse` hands over: the fields, the body, whether the connection stays, and
-- how many bytes of the text are left.
abbrev pub handed_over : Head → Bytes → ℕ → Request
handed_over h body left = record (received h) {
  content = body;
  keep_alive = keeps_alive (received h);
  remain_size = left % 2 ^ 32;
}

run_head :
    (h : Head) (text : Bytes)
    → IsHead h
    → consume (new_parsing new_request) (render h text)
      ≡ consume
          (at header_line_start 0 false (record (received h) { headers = [] }))
          (lines h.headers (b'\r' ∷ b'\n' ∷ text))
run_head h text k =
    run_line 0 false h (lines h.headers (b'\r' ∷ b'\n' ∷ text)) new_request k.method_ok k.uri_ok
      k.major_ok k.minor_ok

consume_completed :
    (m : Parsing) (c : ℕ) (cs : Bytes) {m' : Parsing}
    → step_in m.state (length cs) c m ≡ completed m'
    → consume m (c ∷ cs) ≡ parsing_completed m'
unfolding consume
consume_completed m c cs e = rw (e, consume)

-- A request with no field that the parser acts on is read back as it was written, with no body,
-- from a text that goes on with `rest`.
pub parse-render :
    (h : Head) (rest : Bytes)
    → IsHead h
    → All (IsQuiet h.method) h.headers
    → parse (new_parsing new_request) new_request (render h rest)
      ≡ parsing_completed (at expecting_newline_3 0 false (handed_over h [] (length rest)))
unfolding parse step_in on_newline_3
parse-render h rest k q =
    run_head h rest k
    ∙ run_quiet 0 false h.headers (b'\r' ∷ b'\n' ∷ rest) (record (received h) { headers = [] })
        k.fields_ok q
    ∙ run_empty_line 0 false (b'\n' ∷ rest) (received h)
    ∙ consume_completed (at expecting_newline_3 0 false (received h)) b'\n' rest refl

-- The field that announces a body of `n` bytes.
pub record Announces (n : ℕ) (h : HeaderItem) : Type 0 where
  pub field_ok : IsField h
  pub named : same_name h.name (codes "Content-Length") ≡ true
  pub counts : size_of_atoi (c_str h.value) ≡ n
  pub small : n < 2 ^ 63

module _ (n : ℕ) (r : Request) (h : HeaderItem) (body : has_body r.method ≡ true)
    (a : Announces n h) where
  note_length :
      on_value b'\r' (at header_value 0 false (with_field r h))
      ≡ goes (at expecting_newline_2 n false (with_field r h))
  unfolding on_value note_header
  note_length = rw body (
      rw (back-last r.headers h)
        (rw (a.named) (rw (a.counts) (rw (le→ltb (2 ^ 63 - 1) n (omega (arith, a.small)))))))

  run_length :
      (text : Bytes)
      → consume (at header_line_start 0 false r) (lines (h ∷ []) text)
        ≡ consume (at header_line_start n false (with_field r h)) text
  unfolding step_in expect
  run_length text =
      run_field 0 false h (b'\r' ∷ b'\n' ∷ text) r a.field_ok
      ∙ consume_goes (at header_value 0 false (with_field r h)) b'\r' (b'\n' ∷ text) note_length
      ∙ consume_goes (at expecting_newline_2 n false (with_field r h)) b'\n' text
          {m' = at header_line_start n false (with_field r h)} refl

-- The bytes of a body, up to the last.
run_body :
    (body rest : Bytes) (n : ℕ) (r : Request)
    → n ≡ length body
    → 0 < n
    → n < 2 ^ 64
    → consume (at post n false r) (body ++ rest)
      ≡ parsing_completed (
          at post 0 false
            (record r { content = r.content ++ body; remain_size = length rest % 2 ^ 32 }))
unfolding step_in on_post
run_body [] rest n r e pos lt = absurd (omega arith)
run_body (c ∷ []) rest n r e pos lt =
    let last : decrement n ≡ 0 = omega arith in
    consume_completed (at post n false r) c rest (rw last)
run_body (c ∷ d ∷ body) rest n r e pos lt =
    let k : decrement n ≡ length (d ∷ body) = omega arith in
    consume_goes (at post n false r) c ((d ∷ body) ++ rest)
      {m' = at post (length (d ∷ body)) false (record r { content = r.content ++ c ∷ [] })}
      (rw k (ground arith))
    ∙ run_body (d ∷ body) rest (length (d ∷ body)) (record r { content = r.content ++ c ∷ [] }) refl
        (omega arith) (omega arith)
    ∙ rw append_assoc

pub lines-append :
    (hs : List HeaderItem) (h : HeaderItem) (text : Bytes)
    → lines (hs ++ h ∷ []) text ≡ lines hs (lines (h ∷ []) text)
lines-append [] h text = refl
lines-append (x ∷ hs) h text = rw (lines-append hs h text)

-- A POST or PUT request whose last field announces a body of some bytes: the body is read to its
-- end, and what follows is left.
module _ (h : Head) (hs : List HeaderItem) (cl : HeaderItem) (body rest : Bytes) (k : IsHead h)
    (split : h.headers ≡ hs ++ cl ∷ []) (method : has_body h.method ≡ true)
    (q : All (IsQuiet h.method) hs) (a : Announces (length body) cl)
    (some_body : 0 < length body) where
  run_fields_body :
      consume
        (at header_line_start 0 false (record (received h) { headers = [] }))
        (lines h.headers (b'\r' ∷ b'\n' ∷ (body ++ rest)))
      ≡ consume
          (at header_line_start (length body) false (received h))
          (b'\r' ∷ b'\n' ∷ (body ++ rest))
  run_fields_body =
      let text = b'\r' ∷ b'\n' ∷ (body ++ rest) in
      let r₀ = record (received h) { headers = [] } in
      rw (split) (
        rw (lines-append hs cl text) (
          run_quiet 0 false hs (lines (cl ∷ []) text) r₀
            (All-append_left IsField hs (cl ∷ []) (rw split at k.fields_ok)) q
          ∙ run_length (length body) (record r₀ { headers = hs }) cl method a text))

  start_body :
      consume (at expecting_newline_3 (length body) false (received h)) (b'\n' ∷ (body ++ rest))
      ≡ consume
          (at post
            (length body)
            false
            (record (received h) { keep_alive = keeps_alive (received h) }))
          (body ++ rest)
  unfolding step_in on_newline_3
  start_body =
      consume_goes (at expecting_newline_3 (length body) false (received h)) b'\n' (body ++ rest)
        {m' = at post (length body) false
          (record (received h) { keep_alive = keeps_alive (received h) })}
        (ground arith)

  -- Such a request is read back as it was written, body included, and the bytes behind the body
  -- are left.
  pub parse-render_body :
      parse (new_parsing new_request) new_request (render h (body ++ rest))
      ≡ parsing_completed (at post 0 false (handed_over h body (length rest)))
  unfolding parse
  parse-render_body =
      run_head h (body ++ rest) k
      ∙ run_fields_body
      ∙ run_empty_line (length body) false (b'\n' ∷ (body ++ rest)) (received h)
      ∙ start_body
      ∙ run_body body rest (length body)
          (record (received h) { keep_alive = keeps_alive (received h) }) refl some_body
          (omega (arith, a.small))
