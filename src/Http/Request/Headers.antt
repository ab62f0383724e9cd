-- ===== src/Http/Request/Headers.antt =====
-- The header fields that the parser reads and does not act on, and the empty line behind them.
use nicenet.Common.{
  ℕ, ◌≡◌, refl, ◌∙◌, arith, Bool, false, some, List, [], ◌∷◌, ◌++◌, append-nil, append_assoc, ◌⊎◌,
  inl, inr, All, Bytes,
}
use nicenet.Common.Text.{codes}
use nicenet.Http.Request.Types.{
  HeaderItem, Request, State, header_line_start, header_name, header_value, expecting_newline_2,
  expecting_newline_3, goes, on_back, back, on_header, push_name, push_value,
}
use nicenet.Http.Request.Fields.{same_name, has_body, note_header, on_line_start, on_name, on_value}
use nicenet.Http.Request.Line.{expect}
use nicenet.Http.Request.Machine.{step_in, consume}
use nicenet.Http.Request.Render.{
  Token, ValueByte, lines, IsWord, IsField, at, consume_goes, Token-ne, Token-line, control-cr,
}

pub on_back-last {ℓ} :
    {A : Type ℓ} (f : A → A) (xs : List A) (x : A)
    → on_back f (xs ++ x ∷ []) ≡ some (xs ++ f x ∷ [])
unfolding on_back
on_back-last f [] x = refl
on_back-last f (y ∷ []) x = refl
on_back-last f (y ∷ z ∷ xs) x = rw (on_back-last f (z ∷ xs) x)

pub back-last {ℓ} : {A : Type ℓ} (xs : List A) (x : A) → back (xs ++ x ∷ []) ≡ some x
unfolding back
back-last [] x = refl
back-last (y ∷ []) x = refl
back-last (y ∷ z ∷ xs) x = back-last (z ∷ xs) x

abbrev pub item : Bytes → Bytes → HeaderItem
item n v = record { name = n; value = v }

-- The request with one field more than it had.
abbrev pub with_field : Request → HeaderItem → Request
with_field r h = record r { headers = r.headers ++ h ∷ [] }

module _ (n : ℕ) (b : Bool) where
  on_header-last :
      (f : HeaderItem → HeaderItem) (s t : State) (r : Request) (h : HeaderItem)
      → on_header f t (at s n b (with_field r h)) ≡ goes (at t n b (with_field r (f h)))
  on_header-last f s t r h = rw (on_back-last f r.headers h, on_header)

  colon :
      (w rest : Bytes) (r : Request)
      → consume (at header_name n b (with_field r (item w []))) (b':' ∷ b' ' ∷ rest)
        ≡ consume (at header_value n b (with_field r (item w []))) rest
  unfolding consume step_in on_name expect
  colon w rest r = refl

  run_name :
      (p cs rest : Bytes) (r : Request)
      → All Token cs
      → consume (at header_name n b (with_field r (item p []))) (cs ++ rest)
        ≡ consume (at header_name n b (with_field r (item (p ++ cs) []))) rest
  unfolding step_in on_name
  run_name p [] rest r h = rw append-nil
  run_name p (c ∷ cs) rest r h =
      consume_goes (at header_name n b (with_field r (item p []))) c (cs ++ rest)
        {m' = at header_name n b (with_field r (item (p ++ c ∷ []) []))}
        (rw ((Token-ne c h.0).1)
          (rw (h.0) (on_header-last (push_name c) header_name header_name r (item p []))))
      ∙ run_name (p ++ c ∷ []) cs rest r h.1
      ∙ rw append_assoc

  run_value :
      (name p cs rest : Bytes) (r : Request)
      → All ValueByte cs
      → consume (at header_value n b (with_field r (item name p))) (cs ++ rest)
        ≡ consume (at header_value n b (with_field r (item name (p ++ cs)))) rest
  unfolding step_in on_value
  run_value name p [] rest r h = rw append-nil
  run_value name p (c ∷ cs) rest r h =
      consume_goes (at header_value n b (with_field r (item name p))) c (cs ++ rest)
        {m' = at header_value n b (with_field r (item name (p ++ c ∷ [])))}
        (rw (control-cr c h.0)
          (rw (h.0) (on_header-last (push_value c) header_value header_value r (item name p))))
      ∙ run_value name (p ++ c ∷ []) cs rest r h.1
      ∙ rw append_assoc

  start_field :
      (c : ℕ) (rest : Bytes) (r : Request)
      → Token c
      → consume (at header_line_start n b r) (c ∷ rest)
        ≡ consume (at header_name n b (with_field r (item (c ∷ []) []))) rest
  unfolding step_in on_line_start
  start_field c rest r h =
      consume_goes (at header_line_start n b r) c rest
        {m' = at header_name n b (with_field r (item (c ∷ []) []))}
        (let (e, f) = Token-line c h in ground (arith, e, f, h))

  -- A field up to the end of its value.
  pub run_field :
      (h : HeaderItem) (rest : Bytes) (r : Request)
      → IsField h
      → consume (at header_line_start n b r) (h.name ++ (b':' ∷ b' ' ∷ (h.value ++ rest)))
        ≡ consume (at header_value n b (with_field r h)) rest
  run_field h rest r f = go h.name f.name_ok
    where
      go :
          (w : Bytes)
          → IsWord Token w
          → consume (at header_line_start n b r) (w ++ (b':' ∷ b' ' ∷ (h.value ++ rest)))
            ≡ consume (at header_value n b (with_field r (item w h.value))) rest
      go [] k = absurd k
      go (c ∷ cs) k =
          start_field c (cs ++ (b':' ∷ b' ' ∷ (h.value ++ rest))) r k.0
          ∙ run_name (c ∷ []) cs (b':' ∷ b' ' ∷ (h.value ++ rest)) r k.1
          ∙ colon (c ∷ cs) (h.value ++ rest) r
          ∙ run_value (c ∷ cs) [] h.value rest r f.value_ok

-- The parser does not act on this field.
abbrev pub IsQuiet : Bytes → HeaderItem → Type 0
IsQuiet method h =
    (has_body method ≡ false)
    ⊎ ((same_name h.name (codes "Content-Length") ≡ false)
        × (same_name h.name (codes "Transfer-Encoding") ≡ false))

module _ (n : ℕ) (b : Bool) where
  quiet_value :
      (r : Request) (h : HeaderItem)
      → IsQuiet r.method h
      → on_value b'\r' (at header_value n b (with_field r h))
        ≡ goes (at expecting_newline_2 n b (with_field r h))
  unfolding on_value note_header
  quiet_value r h (inl e) = rw e
  quiet_value r h (inr q) = ground (arith, back-last r.headers h)

  end_quiet :
      (r : Request) (h : HeaderItem) (rest : Bytes)
      → IsQuiet r.method h
      → consume (at header_value n b (with_field r h)) (b'\r' ∷ b'\n' ∷ rest)
        ≡ consume (at header_line_start n b (with_field r h)) rest
  unfolding step_in expect
  end_quiet r h rest q =
      consume_goes (at header_value n b (with_field r h)) b'\r' (b'\n' ∷ rest) (quiet_value r h q)
      ∙ consume_goes (at expecting_newline_2 n b (with_field r h)) b'\n' rest
          {m' = at header_line_start n b (with_field r h)} refl

  pub run_quiet :
      (hs : List HeaderItem) (text : Bytes) (r : Request)
      → All IsField hs
      → All (IsQuiet r.method) hs
      → consume (at header_line_start n b r) (lines hs text)
        ≡ consume (at header_line_start n b (record r { headers = r.headers ++ hs })) text
  run_quiet [] text r fs qs = rw append-nil
  run_quiet (h ∷ hs) text r fs qs =
      run_field n b h (b'\r' ∷ b'\n' ∷ lines hs text) r fs.0
      ∙ end_quiet r h (lines hs text) qs.0
      ∙ run_quiet hs text (with_field r h) fs.1 qs.1
      ∙ rw append_assoc

  pub run_empty_line :
      (rest : Bytes) (r : Request)
      → consume (at header_line_start n b r) (b'\r' ∷ rest)
        ≡ consume (at expecting_newline_3 n b r) rest
  unfolding consume step_in on_line_start
  run_empty_line rest r = refl
