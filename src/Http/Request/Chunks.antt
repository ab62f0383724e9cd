-- ===== src/Http/Request/Chunks.antt =====
-- Parsing in pieces.
use nicenet.Common.{ℕ, ◌≡◌, refl, arith, [], ◌∷◌, ◌++◌, length, Bytes}
use nicenet.Http.Request.Types.{
  State, request_uri, expecting_newline_3, post, chunk_size_new_line_3, Parsing, Advance, goes,
  completed, refused, raised,
}
use nicenet.Http.Request.Line.{on_uri}
use nicenet.Http.Request.Fields.{on_newline_3}
use nicenet.Http.Request.Body.{on_post, on_size_new_line_3}
use nicenet.Http.Request.Machine.{step_in, parsing_incompleted, consume}

-- Where the loop goes on, how much of the buffer is left does not matter.
step_in-left :
    (st : State) (l l' c : ℕ) (m m' : Parsing)
    → step_in st l c m ≡ goes m'
    → step_in st l' c m ≡ goes m'
unfolding step_in on_uri on_newline_3 on_post on_size_new_line_3
step_in-left request_uri l l' c m m' e = ground arith
step_in-left expecting_newline_3 l l' c m m' e = ground arith
step_in-left post l l' c m m' e = ground arith
step_in-left chunk_size_new_line_3 l l' c m m' e = ground arith
step_in-left _ l l' c m m' e = e

goes_of_incompleted :
    (m : Parsing) (c : ℕ) (cs : Bytes) (m' : Parsing) (a : Advance)
    → step_in m.state (length cs) c m ≡ a
    → consume m (c ∷ cs) ≡ parsing_incompleted m'
    → (m₁ : Parsing) × (a ≡ goes m₁) × (consume m₁ cs ≡ parsing_incompleted m')
unfolding consume
goes_of_incompleted m c cs m' (goes m₁) s e = (m₁, refl, rw (s, consume) at e)
goes_of_incompleted m c cs m' (completed m₁) s e = absurd (cc (rw (s, consume) at e))
goes_of_incompleted m c cs m' (refused m₁) s e = absurd (cc (rw (s, consume) at e))
goes_of_incompleted m c cs m' (raised x) s e = absurd (cc (rw (s, consume) at e))

-- On one request object, parsing a text in two pieces is parsing it at once: where the first
-- piece is incomplete, the parser and the request that it leaves take the second piece to the
-- same result.
pub consume-append :
    (xs ys : Bytes) (m m' : Parsing)
    → consume m xs ≡ parsing_incompleted m'
    → consume m (xs ++ ys) ≡ consume m' ys
unfolding consume
consume-append [] ys m m' e = rw (same e)
  where
    same : parsing_incompleted m ≡ parsing_incompleted m' → m ≡ m'
    same e = cc
consume-append (c ∷ cs) ys m m' e =
    let (m₁, s, rest) = goes_of_incompleted m c cs m' (step_in m.state (length cs) c m) refl e in
    rw (step_in-left m.state (length cs) (length (cs ++ ys)) c m m₁ s, consume)
      (consume-append cs ys m₁ m' rest)
