-- ===== src/Http/Request/Reuse.antt =====
-- A parser that is used for a second read with another request object, as `HttpConnection::start`
-- uses its `m_parser`.
use nicenet.Common.{
  ℕ, ◌-◌, ◌^◌, ◌<◌, ◌≡◌, ◌≢◌, ◌∙◌, refl, arith, false, [], ◌∷◌, ◌++◌, append-nil, append_assoc,
  length, All, Bytes, empty_back,
}
use nicenet.Http.Request.Types.{
  HeaderItem, Request, header_value, expecting_newline_3, post, Parsing, refused, raised,
  new_request, new_parsing, on_back,
}
use nicenet.Http.Request.Fields.{on_value, keeps_alive, on_newline_3}
use nicenet.Http.Request.Body.{on_post, decrement}
use nicenet.Http.Request.Machine.{
  step_in, parsing_completed, parsing_incompleted, parsing_error, parsing_raised, consume, parse,
}
use nicenet.Http.Request.Render.{
  Head, render, lines, version, IsHead, IsField, ValueByte, at, consume_goes, run_line, control-cr,
}
use nicenet.Http.Request.Headers.{with_field, IsQuiet, run_field, run_quiet}
use nicenet.Http.Request.Requests.{received, handed_over, parse-render}

consume_refused :
    (m : Parsing) (c : ℕ) (cs : Bytes) {m' : Parsing}
    → step_in m.state (length cs) c m ≡ refused m'
    → consume m (c ∷ cs) ≡ parsing_error m'
unfolding consume
consume_refused m c cs e = rw (e, consume)

consume_raised :
    (m : Parsing) (c : ℕ) (cs : Bytes)
    → step_in m.state (length cs) c m ≡ raised empty_back
    → consume m (c ∷ cs) ≡ parsing_raised empty_back
unfolding consume
consume_raised m c cs e = rw (e, consume)

-- A parser that has completed a request without a body (none of its fields is one that it acts
-- on) refuses the next request on the same connection, into whatever request object, unless that
-- begins with a line feed.
pub parse_next :
    (h : Head) (rest : Bytes) (r : Request) (c : ℕ) (cs : Bytes)
    → IsHead h
    → All (IsQuiet h.method) h.headers
    → c ≢ b'\n'
    → (m : Parsing) × (m' : Parsing) × (parse (new_parsing new_request) new_request (render h rest)
        ≡ parsing_completed m)
      × (parse m r (c ∷ cs) ≡ parsing_error m')
unfolding parse step_in on_newline_3
parse_next h rest r c cs k q ne = (
  at expecting_newline_3 0 false (handed_over h [] (length rest)),
  at expecting_newline_3 0 false (record r { keep_alive = keeps_alive r }),
  parse-render h rest k q,
  consume_refused (at expecting_newline_3 0 false r) c cs (ground arith),
)

-- While `n` bytes of a body are to come, a text of fewer is all taken for the body.
post_swallows :
    (text : Bytes) (n : ℕ) (r : Request)
    → 0 < n
    → n < 2 ^ 64
    → length text < n
    → consume (at post n false r) text
      ≡ parsing_incompleted
          (at post (n - length text) false (record r { content = r.content ++ text }))
unfolding step_in on_post
post_swallows [] n r pos lt less =
    let e : n - 0 ≡ n = omega arith in unfold consume in rw (e, append-nil)
post_swallows (c ∷ text) n r pos lt less =
    let k : decrement n ≡ n - 1 = omega arith in
    let r' = record r { content = r.content ++ c ∷ [] } in
    let left : n - 1 - length text ≡ n - length (c ∷ text) = omega arith in
    consume_goes (at post n false r) c text {m' = at post (n - 1) false r'} (rw k (ground arith))
    ∙ post_swallows text (n - 1) r' (omega arith) (omega arith) (omega arith)
    ∙ rw (left, append_assoc)

-- After a request with a body the count of bytes that are missing starts at 0 and wraps: a parser
-- in that state takes the next text, of 1 to 2 ^ 64 - 1 bytes and whatever it says, for more of a
-- body, and does not complete.
pub parse_next_body :
    (r r' : Request) (c : ℕ) (cs : Bytes)
    → length (c ∷ cs) < 2 ^ 64
    → parse (at post 0 false r) r' (c ∷ cs)
      ≡ parsing_incompleted (
          at post (2 ^ 64 - length (c ∷ cs)) false (record r' { content = r'.content ++ (c ∷ cs) }))
unfolding parse step_in on_post
parse_next_body r r' c cs lt =
    let r₁ = record r' { content = r'.content ++ c ∷ [] } in
    let left : 2 ^ 64 - 1 - length cs ≡ 2 ^ 64 - length (c ∷ cs) = omega arith in
    consume_goes (at post 0 false r') c cs {m' = at post (2 ^ 64 - 1) false r₁} refl
    ∙ post_swallows cs (2 ^ 64 - 1) r₁ (omega arith) (omega arith) (omega arith)
    ∙ rw (left, append_assoc)

-- A request that is cut inside a field's value, `h` up to the field `f` and then a byte of its
-- value: the first read is incomplete, and the second, into the new request object that it is
-- given, takes `back()` of an empty vector.
pub parse_split_field :
    (h : Head) (f : HeaderItem) (c : ℕ) (cs : Bytes)
    → IsHead h
    → All (IsQuiet h.method) h.headers
    → IsField f
    → ValueByte c
    → let front =
        h.method
        ++ (b' '
            ∷ (h.uri
                ++ (b' '
                    ∷ version h.major h.minor
                        (lines h.headers (f.name ++ (b':' ∷ b' ' ∷ (f.value ++ []))))))) in
      (m : Parsing) × (parse (new_parsing new_request) new_request front ≡ parsing_incompleted m)
      × (parse m new_request (c ∷ cs) ≡ parsing_raised empty_back)
unfolding parse
parse_split_field h f c cs k q g v =
    let tail = f.name ++ (b':' ∷ b' ' ∷ (f.value ++ [])) in
    (
      at header_value 0 false (with_field (received h) f),
      run_line 0 false h (lines h.headers tail) new_request k.method_ok k.uri_ok k.major_ok
            k.minor_ok
          ∙ run_quiet 0 false h.headers tail (record (received h) { headers = [] }) k.fields_ok q
          ∙ run_field 0 false f [] (received h) g
          ∙ (unfold consume in refl),
      consume_raised (at header_value 0 false new_request) c cs (empty_value c v),
    )
  where
    empty_value :
        (c : ℕ)
        → ValueByte c
        → step_in header_value (length cs) c (at header_value 0 false new_request)
          ≡ raised empty_back
    empty_value c v = unfold step_in on_value on_back in rw (control-cr c v) (rw v)
