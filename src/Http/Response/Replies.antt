-- ===== src/Http/Response/Replies.antt =====
-- Whole responses: what `parse` makes of the text that a server writes.
use nicenet.Common.{
  ℕ, ◌-◌, ◌^◌, ◌<◌, ◌≡◌, ◌∙◌, refl, ap, sym, All-append, arith, false, List, [], ◌∷◌, ◌++◌,
  append_assoc, length, All, All-append_left, Bytes, le→ltb,
}
use nicenet.Http.Chars.{is_char}
use nicenet.Http.Request.Types.{HeaderItem}
use nicenet.Http.Request.Body.{decrement}
use nicenet.Http.Request.Render.{lines, IsField}
use nicenet.Http.Request.Requests.{Announces, lines-append}
use nicenet.Http.Response.Types.{
  Response, response_http_version_status_text_start, header_line_start, expecting_newline_3, post,
  Parsing, completed, new_response, new_parsing,
}
use nicenet.Http.Response.Fields.{note_header, keeps_alive, on_newline_3}
use nicenet.Http.Response.Body.{on_post}
use nicenet.Http.Response.Machine.{step_in, parsing_completed, consume, parse}
use nicenet.Http.Response.Render.{
  Head, render, IsHead, IsCode, TextByte, run_code_line, run_reason, code_value, at, consume_goes,
  run_line,
}
use nicenet.Http.Response.Headers.{
  with_field, IsQuiet, run_field, end_field, run_quiet, run_empty_line,
}

-- What the response object holds at the end of the fields.
abbrev pub received : Head → Response
received h = record new_response {
  version_major = h.major;
  version_minor = h.minor;
  headers = h.headers;
  status_code = code_value h.code;
  status = h.reason;
}

-- The response that `parse` hands over.
abbrev pub handed_over : Head → Bytes → Response
handed_over h body = record (received h) { content = body; keep_alive = keeps_alive (received h) }

consume_completed :
    (m : Parsing) (c : ℕ) (cs : Bytes) {m' : Parsing}
    → step_in m.state c m ≡ completed m'
    → consume m (c ∷ cs) ≡ parsing_completed m'
unfolding consume
consume_completed m c cs e = rw (e, consume)

-- A response with no field that the parser acts on is read back as it was written, with no body,
-- from a text that goes on with `rest`.
pub parse-render_reply :
    (h : Head) (rest : Bytes)
    → IsHead h
    → All IsQuiet h.headers
    → parse (new_parsing new_response) new_response (render h rest)
      ≡ parsing_completed (at expecting_newline_3 0 false (handed_over h []))
unfolding parse step_in on_newline_3
parse-render_reply h rest k q =
    run_line 0 false h (lines h.headers (b'\r' ∷ b'\n' ∷ rest)) new_response k
    ∙ run_quiet 0 false h.headers (b'\r' ∷ b'\n' ∷ rest) (record (received h) { headers = [] })
        k.fields_ok q
    ∙ run_empty_line 0 false (b'\n' ∷ rest) (received h)
    ∙ consume_completed (at expecting_newline_3 0 false (received h)) b'\n' rest refl

run_length :
    (n : ℕ) (r : Response) (h : HeaderItem) (text : Bytes)
    → Announces n h
    → consume (at header_line_start 0 false r) (lines (h ∷ []) text)
      ≡ consume (at header_line_start n false (with_field r h)) text
unfolding note_header
run_length n r h text a =
    run_field 0 false h (b'\r' ∷ b'\n' ∷ text) r a.field_ok
    ∙ end_field 0 false n r h text
        (rw (a.named) (rw (a.counts) (rw (le→ltb (2 ^ 63 - 1) n (omega (arith, a.small))))))

-- The bytes of a body, up to the last.
run_body :
    (body rest : Bytes) (n : ℕ) (r : Response)
    → n ≡ length body
    → 0 < n
    → n < 2 ^ 64
    → consume (at post n false r) (body ++ rest)
      ≡ parsing_completed (at post 0 false (record r { content = r.content ++ body }))
unfolding step_in on_post
run_body [] rest n r e pos lt = absurd (omega arith)
run_body (c ∷ []) rest n r e pos lt =
    let last : decrement n ≡ 0 = omega arith in
    consume_completed (at post n false r) c rest (rw last)
run_body (c ∷ d ∷ body) rest n r e pos lt =
    let k : decrement n ≡ length (d ∷ body) = omega arith in
    consume_goes (at post n false r) c ((d ∷ body) ++ rest)
      {m' = at post (length (d ∷ body)) false (record r { content = r.content ++ c ∷ [] })}
      (rw k (ground arith))
    ∙ run_body (d ∷ body) rest (length (d ∷ body)) (record r { content = r.content ++ c ∷ [] }) refl
        (omega arith) (omega arith)
    ∙ rw append_assoc

-- A response whose last field announces a body of some bytes: the body is read to its end.
module _ (h : Head) (hs : List HeaderItem) (cl : HeaderItem) (body rest : Bytes) (k : IsHead h)
    (split : h.headers ≡ hs ++ cl ∷ []) (q : All IsQuiet hs) (a : Announces (length body) cl)
    (some_body : 0 < length body) where
  run_fields_body :
      consume
        (at header_line_start 0 false (record (received h) { headers = [] }))
        (lines h.headers (b'\r' ∷ b'\n' ∷ (body ++ rest)))
      ≡ consume
          (at header_line_start (length body) false (received h))
          (b'\r' ∷ b'\n' ∷ (body ++ rest))
  run_fields_body =
      let text = b'\r' ∷ b'\n' ∷ (body ++ rest) in
      let r₀ = record (received h) { headers = [] } in
      rw (split) (
        rw (lines-append hs cl text) (
          run_quiet 0 false hs (lines (cl ∷ []) text) r₀
            (All-append_left IsField hs (cl ∷ []) (rw split at k.fields_ok)) q
          ∙ run_length (length body) (record r₀ { headers = hs }) cl text a))

  start_body :
      consume (at expecting_newline_3 (length body) false (received h)) (b'\n' ∷ (body ++ rest))
      ≡ consume
          (at post
            (length body)
            false
            (record (received h) { keep_alive = keeps_alive (received h) }))
          (body ++ rest)
  unfolding step_in on_newline_3
  start_body =
      consume_goes (at expecting_newline_3 (length body) false (received h)) b'\n' (body ++ rest)
        {m' = at post (length body) false
          (record (received h) { keep_alive = keeps_alive (received h) })}
        (ground arith)

  -- A response with version numbers of one digit, a status from 100 to 999, a reason of at least one
  -- byte, all below 128 and none a carriage return, fields of the bytes that their states take, none of
  -- which the parser acts on, and last a field that announces the body, which has at least one byte:
  -- a new parser reads it back into a new response as it was written, body included, whatever
  -- follows the body.
  pub parse-render_reply_body :
      parse (new_parsing new_response) new_response (render h (body ++ rest))
      ≡ parsing_completed (at post 0 false (handed_over h body))
  unfolding parse
  parse-render_reply_body =
      run_line 0 false h (lines h.headers (b'\r' ∷ b'\n' ∷ (body ++ rest))) new_response k
      ∙ run_fields_body
      ∙ run_empty_line (length body) false (b'\n' ∷ (body ++ rest)) (received h)
      ∙ start_body
      ∙ run_body body rest (length body)
          (record (received h) { keep_alive = keeps_alive (received h) }) refl some_body
          (omega (arith, a.small))

-- A response whose reason is empty, with a field whose bytes are all below 128: the parser takes
-- the end of the status line and the field for the reason, and the field is lost.
pub parse_no_reason :
    (h : Head) (f : HeaderItem) (hs : List HeaderItem) (text : Bytes)
    → h.major < 10
    → h.minor < 10
    → IsCode h.code
    → h.reason ≡ []
    → h.headers ≡ f ∷ hs
    → All TextByte f.name
    → All TextByte f.value
    → parse (new_parsing new_response) new_response (render h text)
      ≡ consume
          (at header_line_start 0 false (record (received h) {
            headers = [];
            status = b'\r' ∷ b'\n' ∷ (f.name ++ (b':' ∷ b' ' ∷ f.value));
          }))
          (lines hs (b'\r' ∷ b'\n' ∷ text))
unfolding parse is_char
parse_no_reason h f hs text i j k empty split n v =
    let rest = lines hs (b'\r' ∷ b'\n' ∷ text) in
    let r = record (received h) { headers = []; status = [] } in
    let word = b'\n' ∷ (f.name ++ (b':' ∷ b' ' ∷ f.value)) in
    let glue : word ++ (b'\r' ∷ b'\n' ∷ rest) ≡ b'\n' ∷ lines (f ∷ hs) (b'\r' ∷ b'\n' ∷ text) =
      rw append_assoc in
    let bytes : All TextByte word =
      ((refl, refl), All-append TextByte f.name _ n ((refl, refl), ((refl, refl), v))) in
    run_code_line 0 false h _ new_response i j k
    ∙ rw empty (
        rw split (
          ap
            (λ (t : Bytes).
              consume (at response_http_version_status_text_start 0 false r) (b'\r' ∷ t))
            (sym glue)
          ∙ run_reason 0 false b'\r' word rest r refl bytes))
