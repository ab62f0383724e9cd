-- ===== src/Http/Response/Headers.antt =====
-- The header fields that the response parser reads and does not act on.
use nicenet.Common.{
  ℕ, ◌≡◌, refl, ◌∙◌, arith, Bool, false, List, [], ◌∷◌, ◌++◌, append-nil, append_assoc, All, Bytes,
}
use nicenet.Common.Text.{codes}
use nicenet.Http.Request.Types.{HeaderItem, push_name, push_value}
use nicenet.Http.Request.Fields.{same_name}
use nicenet.Http.Request.Render.{
  Token, ValueByte, lines, IsWord, IsField, Token-ne, Token-line, control-cr,
}
use nicenet.Http.Request.Headers.{on_back-last, back-last, item}
use nicenet.Http.Response.Types.{
  Response, State, header_line_start, header_name, header_value, expecting_newline_2,
  expecting_newline_3, goes, on_header,
}
use nicenet.Http.Response.Fields.{note_header, on_line_start, on_name, on_value}
use nicenet.Http.Response.Line.{expect}
use nicenet.Http.Response.Machine.{step_in, consume}
use nicenet.Http.Response.Render.{at, consume_goes}

-- The response with one field more than it had.
abbrev pub with_field : Response → HeaderItem → Response
with_field r h = record r { headers = r.headers ++ h ∷ [] }

-- The parser does not act on this field.
abbrev pub IsQuiet : HeaderItem → Type 0
IsQuiet h =
    (same_name h.name (codes "Content-Length") ≡ false)
    × (same_name h.name (codes "Transfer-Encoding") ≡ false)

module _ (n : ℕ) (b : Bool) where
  on_header-last :
      (f : HeaderItem → HeaderItem) (s t : State) (r : Response) (h : HeaderItem)
      → on_header f t (at s n b (with_field r h)) ≡ goes (at t n b (with_field r (f h)))
  on_header-last f s t r h = rw (on_back-last f r.headers h, on_header)

  run_name :
      (p cs rest : Bytes) (r : Response)
      → All Token cs
      → consume (at header_name n b (with_field r (item p []))) (cs ++ (b':' ∷ b' ' ∷ rest))
        ≡ consume (at header_value n b (with_field r (item (p ++ cs) []))) rest
  unfolding step_in on_name consume expect
  run_name p [] rest r h = rw append-nil
  run_name p (c ∷ cs) rest r h =
      consume_goes (at header_name n b (with_field r (item p []))) c (cs ++ (b':' ∷ b' ' ∷ rest))
        {m' = at header_name n b (with_field r (item (p ++ c ∷ []) []))}
        (rw ((Token-ne c h.0).1)
          (rw (h.0) (on_header-last (push_name c) header_name header_name r (item p []))))
      ∙ run_name (p ++ c ∷ []) cs rest r h.1
      ∙ rw append_assoc

  run_value :
      (name p cs rest : Bytes) (r : Response)
      → All ValueByte cs
      → consume (at header_value n b (with_field r (item name p))) (cs ++ rest)
        ≡ consume (at header_value n b (with_field r (item name (p ++ cs)))) rest
  unfolding step_in on_value
  run_value name p [] rest r h = rw append-nil
  run_value name p (c ∷ cs) rest r h =
      consume_goes (at header_value n b (with_field r (item name p))) c (cs ++ rest)
        {m' = at header_value n b (with_field r (item name (p ++ c ∷ [])))}
        (rw (control-cr c h.0)
          (rw (h.0) (on_header-last (push_value c) header_value header_value r (item name p))))
      ∙ run_value name (p ++ c ∷ []) cs rest r h.1
      ∙ rw append_assoc

  start_field :
      (c : ℕ) (rest : Bytes) (r : Response)
      → Token c
      → consume (at header_line_start n b r) (c ∷ rest)
        ≡ consume (at header_name n b (with_field r (item (c ∷ []) []))) rest
  unfolding step_in on_line_start
  start_field c rest r h =
      consume_goes (at header_line_start n b r) c rest
        {m' = at header_name n b (with_field r (item (c ∷ []) []))}
        (let (e, f) = Token-line c h in ground (arith, e, f, h))

  -- A field up to the end of its value.
  pub run_field :
      (h : HeaderItem) (rest : Bytes) (r : Response)
      → IsField h
      → consume (at header_line_start n b r) (h.name ++ (b':' ∷ b' ' ∷ (h.value ++ rest)))
        ≡ consume (at header_value n b (with_field r h)) rest
  run_field h rest r f = go h.name f.name_ok
    where
      go :
          (w : Bytes)
          → IsWord Token w
          → consume (at header_line_start n b r) (w ++ (b':' ∷ b' ' ∷ (h.value ++ rest)))
            ≡ consume (at header_value n b (with_field r (item w h.value))) rest
      go [] k = absurd k
      go (c ∷ cs) k =
          start_field c (cs ++ (b':' ∷ b' ' ∷ (h.value ++ rest))) r k.0
          ∙ run_name (c ∷ []) cs (h.value ++ rest) r k.1
          ∙ run_value (c ∷ cs) [] h.value rest r f.value_ok

  -- The end of a field's line, given what the field does to the number of body bytes.
  pub end_field :
      (k : ℕ) (r : Response) (h : HeaderItem) (rest : Bytes)
      → note_header h (at header_value n b (with_field r h))
        ≡ goes (at expecting_newline_2 k b (with_field r h))
      → consume (at header_value n b (with_field r h)) (b'\r' ∷ b'\n' ∷ rest)
        ≡ consume (at header_line_start k b (with_field r h)) rest
  unfolding step_in expect on_value
  end_field k r h rest e =
      consume_goes (at header_value n b (with_field r h)) b'\r' (b'\n' ∷ rest)
        {m' = at expecting_newline_2 k b (with_field r h)} (rw (back-last r.headers h) e)
      ∙ consume_goes (at expecting_newline_2 k b (with_field r h)) b'\n' rest
          {m' = at header_line_start k b (with_field r h)} refl

  note_quiet :
      (r : Response) (h : HeaderItem)
      → IsQuiet h
      → note_header h (at header_value n b (with_field r h))
        ≡ goes (at expecting_newline_2 n b (with_field r h))
  unfolding note_header
  note_quiet r h q = rw (q.0) (rw (q.1))

  pub run_quiet :
      (hs : List HeaderItem) (text : Bytes) (r : Response)
      → All IsField hs
      → All IsQuiet hs
      → consume (at header_line_start n b r) (lines hs text)
        ≡ consume (at header_line_start n b (record r { headers = r.headers ++ hs })) text
  run_quiet [] text r fs qs = rw append-nil
  run_quiet (h ∷ hs) text r fs qs =
      run_field h (b'\r' ∷ b'\n' ∷ lines hs text) r fs.0
      ∙ end_field n r h (lines hs text) (note_quiet r h qs.0)
      ∙ run_quiet hs text (with_field r h) fs.1 qs.1
      ∙ rw append_assoc

  pub run_empty_line :
      (rest : Bytes) (r : Response)
      → consume (at header_line_start n b r) (b'\r' ∷ rest)
        ≡ consume (at expecting_newline_3 n b r) rest
  unfolding consume step_in on_line_start
  run_empty_line rest r = refl
