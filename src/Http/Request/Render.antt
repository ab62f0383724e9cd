-- ===== src/Http/Request/Render.antt =====
-- Requests as a client writes them, and what each part does to the parser.
use nicenet.Common.{
  ℕ, ◌+◌, ◌-◌, ◌<◌, ◌≡◌, refl, ◌∙◌, arith, Bool, true, false, List, [], ◌∷◌, ◌++◌, append-nil,
  append_assoc, ◌||◌, not, ◌==◌, length, All, Bytes,
}
use nicenet.Http.Chars.{is_char, is_control, is_special, is_digit}
use nicenet.Http.Request.Types.{
  HeaderItem, Request, State, request_method_start, request_method, request_uri_start, request_uri,
  request_http_version_h, request_http_version_major_start, request_http_version_major,
  request_http_version_minor_start, request_http_version_minor, response_http_version_new_line,
  header_line_start, Parsing, goes,
}
use nicenet.Http.Request.Line.{
  on_method_start, on_method, on_uri_start, on_uri, expect, on_slash, on_major_start, on_major,
  on_minor_start, on_minor,
}
use nicenet.Http.Request.Machine.{step_in, consume}

-- A byte of a method or of a header's name; of a URI; of a header's value.
abbrev pub Token : ℕ → Type 0
Token c = (not (is_char c) || is_control c || is_special c) ≡ false

abbrev pub UriByte : ℕ → Type 0
UriByte c = (is_control c ≡ false) × ((c == b' ') ≡ false)

abbrev pub ValueByte : ℕ → Type 0
ValueByte c = is_control c ≡ false

pub record Head : Type 0 where
  pub method : Bytes
  pub uri : Bytes
  pub major : ℕ
  pub minor : ℕ
  pub headers : List HeaderItem

-- Fields, each with the end of its line, in front of `text`.
abbrev pub lines : List HeaderItem → Bytes → Bytes
lines [] text = text
lines (h ∷ hs) text = h.name ++ (b':' ∷ b' ' ∷ (h.value ++ (b'\r' ∷ b'\n' ∷ lines hs text)))

abbrev pub version : ℕ → ℕ → Bytes → Bytes
version major minor rest =
    b'H' ∷ b'T' ∷ b'T' ∷ b'P' ∷ b'/' ∷ (48 + major) ∷ b'.' ∷ (48 + minor) ∷ b'\r' ∷ b'\n' ∷ rest

-- The request line, the fields, the empty line, and what follows.
abbrev pub render : Head → Bytes → Bytes
render h rest =
    h.method
    ++ (b' ' ∷ (h.uri ++ (b' ' ∷ version h.major h.minor (lines h.headers (b'\r' ∷ b'\n' ∷ rest)))))

abbrev pub IsWord : (ℕ → Type 0) → Bytes → Type 0
IsWord P [] = ⊥
IsWord P (c ∷ cs) = P c × All P cs

pub record IsField (h : HeaderItem) : Type 0 where
  pub name_ok : IsWord Token h.name
  pub value_ok : All ValueByte h.value

pub record IsHead (h : Head) : Type 0 where
  pub method_ok : IsWord Token h.method
  pub uri_ok : IsWord UriByte h.uri
  pub major_ok : h.major < 10
  pub minor_ok : h.minor < 10
  pub fields_ok : All IsField h.headers

-- The parser in state `st`, with the numbers of a body, and no chunk begun.
abbrev pub at : State → ℕ → Bool → Request → Parsing
at st n b r = record {
  state = st;
  content_size = n;
  chunk_size_str = [];
  chunk_left = 0;
  chunked = b;
  req = r;
}

pub consume_goes :
    (m : Parsing) (c : ℕ) (cs : Bytes) {m' : Parsing}
    → step_in m.state (length cs) c m ≡ goes m'
    → consume m (c ∷ cs) ≡ consume m' cs
unfolding consume
consume_goes m c cs e = rw (e, consume)

pub Token-ne : (c : ℕ) → Token c → ((c == b' ') ≡ false) × ((c == b':') ≡ false)
unfolding is_special
Token-ne c h = ground arith

pub Token-line : (c : ℕ) → Token c → ((c == b'\r') ≡ false) × ((c == b' ' || c == b'\t') ≡ false)
unfolding is_special is_control
Token-line c h = ground arith

pub control-cr : (c : ℕ) → is_control c ≡ false → (c == b'\r') ≡ false
unfolding is_control
control-cr c h = ground arith

pub digit-is_digit : (d : ℕ) → d < 10 → is_digit (48 + d) ≡ true
unfolding is_digit
digit-is_digit d h = ground arith

module _ (n : ℕ) (b : Bool) where
  run_method :
      (cs rest : Bytes) (r : Request)
      → All Token cs
      → consume (at request_method n b r) (cs ++ rest)
        ≡ consume (at request_method n b (record r { method = r.method ++ cs })) rest
  unfolding step_in on_method
  run_method [] rest r h = rw append-nil
  run_method (c ∷ cs) rest r h =
      consume_goes (at request_method n b r) c (cs ++ rest) (rw (Token-ne c h.0).0 (rw (h.0)))
      ∙ run_method cs rest (record r { method = r.method ++ c ∷ [] }) h.1
      ∙ rw append_assoc

  run_uri :
      (cs rest : Bytes) (r : Request)
      → All UriByte cs
      → consume (at request_uri n b r) (cs ++ rest)
        ≡ consume (at request_uri n b (record r { uri = r.uri ++ cs })) rest
  unfolding step_in on_uri
  run_uri [] rest r h = rw append-nil
  run_uri (c ∷ cs) rest r h =
      consume_goes (at request_uri n b r) c (cs ++ rest)
        (rw (h.0).1 (rw (control-cr c (h.0).0) (rw (h.0).0)))
      ∙ run_uri cs rest (record r { uri = r.uri ++ c ∷ [] }) h.1
      ∙ rw append_assoc

  run_slash :
      (rest : Bytes) (r : Request)
      → consume (at request_http_version_h n b r) (b'H' ∷ b'T' ∷ b'T' ∷ b'P' ∷ b'/' ∷ rest)
        ≡ consume
            (at request_http_version_major_start n b
              (record r { version_major = 0; version_minor = 0 }))
            rest
  unfolding step_in expect on_slash consume
  run_slash rest r = refl

  run_version :
      (major minor : ℕ) (rest : Bytes) (r : Request)
      → major < 10
      → minor < 10
      → consume (at request_http_version_h n b r) (version major minor rest)
        ≡ consume
            (at header_line_start n b (record r { version_major = major; version_minor = minor }))
            rest
  unfolding step_in expect on_major_start on_major on_minor_start on_minor
  run_version major minor rest r h k =
      let major_digit : 48 + major - 48 ≡ major = omega arith in
      let minor_digit : 48 + minor - 48 ≡ minor = omega arith in
      let r₀ = record r { version_major = 0; version_minor = 0 } in
      let r₁ = record r { version_major = major; version_minor = 0 } in
      let r₂ = record r { version_major = major; version_minor = minor } in
      run_slash ((48 + major) ∷ b'.' ∷ (48 + minor) ∷ b'\r' ∷ b'\n' ∷ rest) r
      ∙ consume_goes (at request_http_version_major_start n b r₀) (48 + major)
          (b'.' ∷ (48 + minor) ∷ b'\r' ∷ b'\n' ∷ rest) {m' = at request_http_version_major n b r₁}
          (rw (digit-is_digit major h) (rw major_digit))
      ∙ consume_goes (at request_http_version_major n b r₁) b'.'
          ((48 + minor) ∷ b'\r' ∷ b'\n' ∷ rest) {m' = at request_http_version_minor_start n b r₁}
          refl
      ∙ consume_goes (at request_http_version_minor_start n b r₁) (48 + minor)
          (b'\r' ∷ b'\n' ∷ rest) {m' = at request_http_version_minor n b r₂}
          (rw (digit-is_digit minor k) (rw minor_digit))
      ∙ consume_goes (at request_http_version_minor n b r₂) b'\r' (b'\n' ∷ rest)
          {m' = at response_http_version_new_line n b r₂} refl
      ∙ consume_goes (at response_http_version_new_line n b r₂) b'\n' rest
          {m' = at header_line_start n b r₂} refl

  run_method_word :
      (w rest : Bytes) (r : Request)
      → IsWord Token w
      → consume (at request_method_start n b r) (w ++ (b' ' ∷ rest))
        ≡ consume (at request_uri_start n b (record r { method = r.method ++ w })) rest
  unfolding step_in on_method_start on_method
  run_method_word [] rest r h = absurd h
  run_method_word (c ∷ cs) rest r h =
      consume_goes (at request_method_start n b r) c (cs ++ (b' ' ∷ rest))
        {m' = at request_method n b (record r { method = r.method ++ c ∷ [] })} (rw (h.0))
      ∙ run_method cs (b' ' ∷ rest) (record r { method = r.method ++ c ∷ [] }) h.1
      ∙ consume_goes (at request_method n b (record r { method = (r.method ++ c ∷ []) ++ cs })) b' '
          rest {m' = at request_uri_start n b (record r { method = (r.method ++ c ∷ []) ++ cs })}
          refl
      ∙ rw append_assoc

  run_uri_word :
      (w rest : Bytes) (r : Request)
      → IsWord UriByte w
      → consume (at request_uri_start n b r) (w ++ (b' ' ∷ rest))
        ≡ consume (at request_http_version_h n b (record r { uri = r.uri ++ w })) rest
  unfolding step_in on_uri_start on_uri
  run_uri_word [] rest r h = absurd h
  run_uri_word (c ∷ cs) rest r h =
      consume_goes (at request_uri_start n b r) c (cs ++ (b' ' ∷ rest))
        {m' = at request_uri n b (record r { uri = r.uri ++ c ∷ [] })} (rw (h.0).0)
      ∙ run_uri cs (b' ' ∷ rest) (record r { uri = r.uri ++ c ∷ [] }) h.1
      ∙ consume_goes (at request_uri n b (record r { uri = (r.uri ++ c ∷ []) ++ cs })) b' ' rest
          {m' = at request_http_version_h n b (record r { uri = (r.uri ++ c ∷ []) ++ cs })} refl
      ∙ rw append_assoc

  -- from the first byte to the end of the request line
  pub run_line :
      (h : Head) (rest : Bytes) (r : Request)
      → IsWord Token h.method
      → IsWord UriByte h.uri
      → h.major < 10
      → h.minor < 10
      → consume
          (at request_method_start n b r)
          (h.method ++ (b' ' ∷ (h.uri ++ (b' ' ∷ version h.major h.minor rest))))
        ≡ consume
            (at header_line_start n b (record r {
              method = r.method ++ h.method;
              uri = r.uri ++ h.uri;
              version_major = h.major;
              version_minor = h.minor;
            }))
            rest
  run_line h rest r m u k l =
      let r₁ = record r { method = r.method ++ h.method } in
      let r₂ = record r₁ { uri = r.uri ++ h.uri } in
      run_method_word h.method (h.uri ++ (b' ' ∷ version h.major h.minor rest)) r m
      ∙ run_uri_word h.uri (version h.major h.minor rest) r₁ u
      ∙ run_version h.major h.minor rest r₂ k l
