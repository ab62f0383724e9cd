-- ===== src/Http/Response/Render.antt =====
-- Responses as a server should write them, and what the status line does to the parser.
use nicenet.Common.{
  ℕ, ◌+◌, ◌-◌, ◌*◌, ◌<◌, ◌≡◌, refl, ◌∙◌, arith, Bool, true, false, List, [], ◌∷◌, ◌++◌, append-nil,
  append_assoc, ◌==◌, ◌||◌, ltb, All, Bytes,
}
use nicenet.Http.Chars.{is_char, is_digit}
use nicenet.Http.Request.Types.{HeaderItem}
use nicenet.Http.Request.Line.{next_digit}
use nicenet.Http.Request.Render.{IsWord, IsField, lines, digit-is_digit}
use nicenet.Http.Response.Types.{
  Response, State, response_status_start, response_http_version_major_start,
  response_http_version_major, response_http_version_minor_start, response_http_version_minor,
  response_http_version_status_code_start, response_http_version_status_code,
  response_http_version_status_text_start, response_http_version_status_text,
  response_http_version_new_line, header_line_start, Parsing, goes,
}
use nicenet.Http.Response.Line.{
  expect, on_slash, on_major_start, on_major, on_minor_start, on_minor, on_code_start, on_code,
  on_text_start, on_text,
}
use nicenet.Http.Response.Machine.{step_in, consume}

abbrev pub TextByte : ℕ → Type 0
TextByte c = (is_char c ≡ true) × ((c == b'\r') ≡ false)

-- The three digits of a status code.
pub record Code : Type 0 where
  pub hundreds : ℕ
  pub tens : ℕ
  pub ones : ℕ

abbrev pub code_value : Code → ℕ
code_value k = (k.hundreds * 10 + k.tens) * 10 + k.ones

pub record IsCode (k : Code) : Type 0 where
  pub leads : 0 < k.hundreds
  pub hundreds_ok : k.hundreds < 10
  pub tens_ok : k.tens < 10
  pub ones_ok : k.ones < 10

pub record Head : Type 0 where
  pub major : ℕ
  pub minor : ℕ
  pub code : Code
  pub reason : Bytes
  pub headers : List HeaderItem

-- The status line up to the reason, and all of it.
abbrev pub code_line : Head → Bytes → Bytes
code_line h rest =
    b'H'
    ∷ b'T'
    ∷ b'T'
    ∷ b'P'
    ∷ b'/'
    ∷ (48 + h.major)
    ∷ b'.'
    ∷ (48 + h.minor)
    ∷ b' '
    ∷ (48 + h.code.hundreds)
    ∷ (48 + h.code.tens)
    ∷ (48 + h.code.ones)
    ∷ b' '
    ∷ rest

abbrev pub status_line : Head → Bytes → Bytes
status_line h rest = code_line h (h.reason ++ (b'\r' ∷ b'\n' ∷ rest))

-- The status line, the fields, the empty line, and what follows.
abbrev pub render : Head → Bytes → Bytes
render h rest = status_line h (lines h.headers (b'\r' ∷ b'\n' ∷ rest))

pub record IsHead (h : Head) : Type 0 where
  pub major_ok : h.major < 10
  pub minor_ok : h.minor < 10
  pub code_ok : IsCode h.code
  pub reason_ok : IsWord TextByte h.reason
  pub fields_ok : All IsField h.headers

-- The parser in state `st`, with the numbers of a body, and no chunk begun.
abbrev pub at : State → ℕ → Bool → Response → Parsing
at st n b r = record {
  state = st;
  content_size = n;
  chunk_size_str = [];
  chunk_left = 0;
  chunked = b;
  resp = r;
}

pub consume_goes :
    (m : Parsing) (c : ℕ) (cs : Bytes) {m' : Parsing}
    → step_in m.state c m ≡ goes m'
    → consume m (c ∷ cs) ≡ consume m' cs
unfolding consume
consume_goes m c cs e = rw (e, consume)

module _ (n : ℕ) (b : Bool) where
  run_version :
      (major minor : ℕ) (rest : Bytes) (r : Response)
      → major < 10
      → minor < 10
      → consume
          (at response_status_start n b r)
          (b'H' ∷ b'T' ∷ b'T' ∷ b'P' ∷ b'/' ∷ (48 + major) ∷ b'.' ∷ (48 + minor) ∷ b' ' ∷ rest)
        ≡ consume
            (at response_http_version_status_code_start n b
              (record r { version_major = major; version_minor = minor; status_code = 0 }))
            rest
  unfolding step_in expect on_slash on_major_start on_major on_minor_start on_minor consume
  run_version major minor rest r h k =
      let major_digit : 48 + major - 48 ≡ major = omega arith in
      let minor_digit : 48 + minor - 48 ≡ minor = omega arith in
      let r₀ = record r { version_major = 0; version_minor = 0 } in
      let r₁ = record r { version_major = major; version_minor = 0 } in
      let r₂ = record r { version_major = major; version_minor = minor } in
      consume_goes (at response_http_version_major_start n b r₀) (48 + major)
        (b'.' ∷ (48 + minor) ∷ b' ' ∷ rest) {m' = at response_http_version_major n b r₁}
        (rw (digit-is_digit major h) (rw major_digit))
      ∙ consume_goes (at response_http_version_major n b r₁) b'.' ((48 + minor) ∷ b' ' ∷ rest)
          {m' = at response_http_version_minor_start n b r₁} refl
      ∙ consume_goes (at response_http_version_minor_start n b r₁) (48 + minor) (b' ' ∷ rest)
          {m' = at response_http_version_minor n b r₂}
          (rw (digit-is_digit minor k) (rw minor_digit))
      ∙ consume_goes (at response_http_version_minor n b r₂) b' ' rest
          {m' = at response_http_version_status_code_start n b (record r₂ { status_code = 0 })} refl

  more_code :
      (v d : ℕ) (rest : Bytes) (r : Response)
      → v < 100
      → d < 10
      → consume
          (at response_http_version_status_code n b (record r { status_code = v }))
          ((48 + d) ∷ rest)
        ≡ consume
            (at response_http_version_status_code n b (record r { status_code = v * 10 + d }))
            rest
  unfolding step_in on_code
  more_code v d rest r h k =
      let next : next_digit v (48 + d) ≡ v * 10 + d = omega arith in
      consume_goes (at response_http_version_status_code n b (record r { status_code = v }))
        (48 + d) rest (rw (digit-is_digit d k) (rw next))

  run_code :
      (k : Code) (rest : Bytes) (r : Response)
      → IsCode k
      → consume
          (at response_http_version_status_code_start n b r)
          ((48 + k.hundreds) ∷ (48 + k.tens) ∷ (48 + k.ones) ∷ b' ' ∷ rest)
        ≡ consume
            (at response_http_version_status_text_start n b
              (record r { status_code = code_value k }))
            rest
  unfolding step_in on_code_start on_code is_digit
  run_code k rest r i =
      let first : 48 + k.hundreds - 48 ≡ k.hundreds = omega arith in
      let fits : (ltb (code_value k) 100 || ltb 999 (code_value k)) ≡ false =
        ground (arith, i.leads, i.hundreds_ok, i.tens_ok, i.ones_ok) in
      consume_goes (at response_http_version_status_code_start n b r) (48 + k.hundreds)
        ((48 + k.tens) ∷ (48 + k.ones) ∷ b' ' ∷ rest)
        {m' = at response_http_version_status_code n b (record r { status_code = k.hundreds })}
        (rw (digit-is_digit k.hundreds i.hundreds_ok) (rw first))
      ∙ more_code k.hundreds k.tens ((48 + k.ones) ∷ b' ' ∷ rest) r (omega (arith, i.hundreds_ok))
          i.tens_ok
      ∙ more_code (k.hundreds * 10 + k.tens) k.ones (b' ' ∷ rest) r
          (omega (arith, i.hundreds_ok, i.tens_ok)) i.ones_ok
      ∙ consume_goes
          (at response_http_version_status_code n b (record r { status_code = code_value k })) b' '
          rest (rw fits)

  run_text :
      (cs rest : Bytes) (r : Response)
      → All TextByte cs
      → consume (at response_http_version_status_text n b r) (cs ++ rest)
        ≡ consume
            (at response_http_version_status_text n b (record r { status = r.status ++ cs }))
            rest
  unfolding step_in on_text
  run_text [] rest r h = rw append-nil
  run_text (c ∷ cs) rest r h =
      consume_goes (at response_http_version_status_text n b r) c (cs ++ rest)
        {m' = at response_http_version_status_text n b (record r { status = r.status ++ c ∷ [] })}
        (rw (h.0).1 (rw (h.0).0))
      ∙ run_text cs rest (record r { status = r.status ++ c ∷ [] }) h.1
      ∙ rw append_assoc

  -- The first byte of a reason may be any character, a carriage return too.
  pub run_reason :
      (c : ℕ) (cs rest : Bytes) (r : Response)
      → is_char c ≡ true
      → All TextByte cs
      → consume
          (at response_http_version_status_text_start n b r)
          (c ∷ (cs ++ (b'\r' ∷ b'\n' ∷ rest)))
        ≡ consume (at header_line_start n b (record r { status = r.status ++ c ∷ cs })) rest
  unfolding step_in on_text_start on_text expect
  run_reason c cs rest r e h =
      let r' = record r { status = (r.status ++ c ∷ []) ++ cs } in
      consume_goes (at response_http_version_status_text_start n b r) c
        (cs ++ (b'\r' ∷ b'\n' ∷ rest))
        {m' = at response_http_version_status_text n b (record r { status = r.status ++ c ∷ [] })}
        (rw e)
      ∙ run_text cs (b'\r' ∷ b'\n' ∷ rest) (record r { status = r.status ++ c ∷ [] }) h
      ∙ consume_goes (at response_http_version_status_text n b r') b'\r' (b'\n' ∷ rest)
          {m' = at response_http_version_new_line n b r'} refl
      ∙ consume_goes (at response_http_version_new_line n b r') b'\n' rest
          {m' = at header_line_start n b r'} refl
      ∙ rw append_assoc

  run_reason_word :
      (w rest : Bytes) (r : Response)
      → IsWord TextByte w
      → consume (at response_http_version_status_text_start n b r) (w ++ (b'\r' ∷ b'\n' ∷ rest))
        ≡ consume (at header_line_start n b (record r { status = r.status ++ w })) rest
  run_reason_word [] rest r h = absurd h
  run_reason_word (c ∷ cs) rest r h = run_reason c cs rest r (h.0).0 h.1

  -- from the first byte to the reason
  pub run_code_line :
      (h : Head) (rest : Bytes) (r : Response)
      → h.major < 10
      → h.minor < 10
      → IsCode h.code
      → consume (at response_status_start n b r) (code_line h rest)
        ≡ consume
            (at response_http_version_status_text_start n b (record r {
              version_major = h.major;
              version_minor = h.minor;
              status_code = code_value h.code;
            }))
            rest
  run_code_line h rest r i j k =
      let r₁ = record r { version_major = h.major; version_minor = h.minor; status_code = 0 } in
      run_version h.major h.minor _ r i j ∙ run_code h.code rest r₁ k

  -- from the first byte to the end of the status line
  pub run_line :
      (h : Head) (rest : Bytes) (r : Response)
      → IsHead h
      → consume (at response_status_start n b r) (status_line h rest)
        ≡ consume
            (at header_line_start n b (record r {
              version_major = h.major;
              version_minor = h.minor;
              status_code = code_value h.code;
              status = r.status ++ h.reason;
            }))
            rest
  run_line h rest r k =
      run_code_line h (h.reason ++ (b'\r' ∷ b'\n' ∷ rest)) r k.major_ok k.minor_ok k.code_ok
      ∙ run_reason_word h.reason rest
          (record r {
            version_major = h.major;
            version_minor = h.minor;
            status_code = code_value h.code;
          })
          k.reason_ok
