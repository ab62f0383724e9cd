-- ===== src/Http/Request/Safety.antt =====
-- The uses of `back()` in the parser, on one request object.
use nicenet.Common.{
  ℕ, ◌≡◌, ◌≢◌, refl, arith, true, some, List, [], ◌∷◌, ◌++◌, length, Bytes, empty_back,
}
use nicenet.Http.Request.Types.{
  HeaderItem, Request, State, header_lws, header_name, space_before_header_value, header_value,
  header_line_start, Parsing, Advance, goes, completed, refused, raised, on_back, back, new_parsing,
  push_name, push_value,
}
use nicenet.Http.Request.Line.{
  on_method_start, on_method, on_uri_start, on_uri, expect, on_slash, on_major_start, on_major,
  on_minor_start, on_minor,
}
use nicenet.Http.Request.Fields.{
  has_headers, on_line_start, on_lws, on_name, on_value, note_header, on_newline_3,
}
use nicenet.Http.Request.Body.{
  on_post, on_chunk_size, on_extension_name, on_skipped_value, on_size_new_line, on_size_new_line_2,
  on_size_new_line_3, on_trailer_name, on_chunk_data,
}
use nicenet.Http.Request.Machine.{step_in, parsing_raised, consume}

-- Inside a field there is a header to write to.
abbrev Inv : State → List HeaderItem → Type 0
Inv header_lws hs = has_headers hs ≡ true
Inv header_name hs = has_headers hs ≡ true
Inv space_before_header_value hs = has_headers hs ≡ true
Inv header_value hs = has_headers hs ≡ true
Inv _ hs = Unit

abbrev IsSafe : Advance → Type 0
IsSafe (goes m) = Inv m.state m.req.headers
IsSafe (completed m) = Unit
IsSafe (refused m) = Unit
IsSafe (raised e) = e ≢ empty_back

on_back-cons {ℓ} :
    {A : Type ℓ} (f : A → A) (x : A) (xs : List A)
    → (y : A) × (ys : List A) × (on_back f (x ∷ xs) ≡ some (y ∷ ys))
unfolding on_back
on_back-cons f x [] = (f x, [], refl)
on_back-cons f x (z ∷ xs) = let (y, ys, e) = on_back-cons f z xs in (x, y ∷ ys, rw e)

back-cons {ℓ} : {A : Type ℓ} (x : A) (xs : List A) → (y : A) × (back (x ∷ xs) ≡ some y)
unfolding back
back-cons x [] = (x, refl)
back-cons x (z ∷ xs) = back-cons z xs

pub on_back_headers :
    (f : HeaderItem → HeaderItem) (hs : List HeaderItem)
    → has_headers hs ≡ true
    → (y : HeaderItem) × (ys : List HeaderItem) × (on_back f hs ≡ some (y ∷ ys))
on_back_headers f [] h = cc
on_back_headers f (x ∷ xs) h = on_back-cons f x xs

pub back_headers :
    (hs : List HeaderItem) → has_headers hs ≡ true → (y : HeaderItem) × (back hs ≡ some y)
back_headers [] h = cc
back_headers (x ∷ xs) h = back-cons x xs

note_header-IsSafe : (h : HeaderItem) (m : Parsing) → IsSafe (note_header h m)
unfolding note_header
note_header-IsSafe h m = ground arith

module _ (left c : ℕ) (m : Parsing) where
  lws-IsSafe : has_headers m.req.headers ≡ true → IsSafe (on_lws c m)
  unfolding on_lws
  lws-IsSafe h =
      let (y, ys, e) = on_back_headers (push_value c) m.req.headers h in ground (arith, e)

  name-IsSafe : m.state ≡ header_name → has_headers m.req.headers ≡ true → IsSafe (on_name c m)
  unfolding on_name
  name-IsSafe s h =
      let (y, ys, e) = on_back_headers (push_name c) m.req.headers h in ground (arith, e)

  value-IsSafe : m.state ≡ header_value → has_headers m.req.headers ≡ true → IsSafe (on_value c m)
  unfolding on_value
  value-IsSafe s h =
      let (y, ys, e) = on_back_headers (push_value c) m.req.headers h in
      let (z, last) = back_headers m.req.headers h in
      ground (arith, e, last, note_header-IsSafe z m)

-- `has_headers` of a list that ends in a new header
pub has_headers-append : (hs : List HeaderItem) (h : HeaderItem) → has_headers (hs ++ h ∷ []) ≡ true
has_headers-append [] h = refl
has_headers-append (x ∷ hs) h = refl

line_start-IsSafe : (c : ℕ) (m : Parsing) → IsSafe (on_line_start c m)
unfolding on_line_start
line_start-IsSafe c m =
    ground (arith, has_headers-append m.req.headers (record { name = c ∷ []; value = [] }))

step_in-IsSafe :
    (st : State) (left c : ℕ) (m : Parsing)
    → m.state ≡ st
    → Inv st m.req.headers
    → IsSafe (step_in st left c m)
unfolding step_in on_method_start on_method on_uri_start on_uri expect on_slash on_major_start
    on_major on_minor_start on_minor on_newline_3 on_post on_chunk_size on_extension_name
    on_skipped_value on_size_new_line on_size_new_line_2 on_size_new_line_3 on_trailer_name
    on_chunk_data
step_in-IsSafe header_lws left c m e h = lws-IsSafe left c m h
step_in-IsSafe header_name left c m e h = name-IsSafe left c m e h
step_in-IsSafe header_value left c m e h = value-IsSafe left c m e h
step_in-IsSafe header_line_start left c m e h = line_start-IsSafe c m
step_in-IsSafe _ left c m e h = ground arith

consume_after :
    (a : Advance) (m : Parsing) (c : ℕ) (cs : Bytes)
    → step_in m.state (length cs) c m ≡ a
    → IsSafe a
    → ((m' : Parsing) → Inv m'.state m'.req.headers → consume m' cs ≢ parsing_raised empty_back)
    → consume m (c ∷ cs) ≢ parsing_raised empty_back
unfolding consume
consume_after (goes m') m c cs e h ih = rw (e, consume) (ih m' h)
consume_after (completed m') m c cs e h ih = rw (e, consume) (λ p. cc)
consume_after (refused m') m c cs e h ih = rw (e, consume) (λ p. cc)
consume_after (raised x) m c cs e h ih = rw (e, consume) (λ p. h (same p))
  where
    same : parsing_raised x ≡ parsing_raised empty_back → x ≡ empty_back
    same p = cc

consume-Inv :
    (text : Bytes) (m : Parsing)
    → Inv m.state m.req.headers
    → consume m text ≢ parsing_raised empty_back
consume-Inv [] m h = unfold consume in λ p. cc
consume-Inv (c ∷ cs) m h =
    consume_after (step_in m.state (length cs) c m) m c cs refl
      (step_in-IsSafe m.state (length cs) c m refl h) (consume-Inv cs)

-- A new parser never takes `back()` of an empty vector, whatever the request object holds and
-- whatever the text.
pub consume_fresh_safe :
    (r : Request) (text : Bytes) → consume (new_parsing r) text ≢ parsing_raised empty_back
consume_fresh_safe r text = consume-Inv text (new_parsing r) tt
