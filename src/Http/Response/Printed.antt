-- ===== src/Http/Response/Printed.antt =====
-- What the response parser makes of a text with no carriage return, such as `inspect` prints.
use nicenet.Common.{
  subst, sym, ℕ, zero, suc, ◌+◌, ◌-◌, ◌/◌, ◌%◌, ◌^◌, ◌≡◌, ◌≢◌, refl, arith, Bool, true, false, List,
  [], ◌∷◌, ltb, ◌==◌, length, All, All-append, Bytes, Bool-cases, inl, inr,
}
use nicenet.Common.Text.{codes}
use nicenet.Http.Request.Types.{HeaderItem}
use nicenet.Http.Response.Types.{
  Response, State, response_status_start, response_http_version_ht, response_http_version_htt,
  response_http_version_http, response_http_version_slash, response_http_version_major_start,
  response_http_version_major, response_http_version_minor_start, response_http_version_minor,
  response_http_version_status_code_start, response_http_version_status_code,
  response_http_version_status_text_start, response_http_version_status_text, Parsing, Advance,
  goes, completed, refused, raised, new_parsing,
}
use nicenet.Http.Response.Line.{
  expect, on_slash, on_major_start, on_major, on_minor_start, on_minor, on_code_start, on_code,
  on_text_start, on_text,
}
use nicenet.Http.Response.Machine.{Outcome, step_in, parsing_completed, consume, parse}
use nicenet.Http.Response.Chunks.{after, consume-after}
use nicenet.Http.Response.Print.{
  digits, decimal, decimal_int, print_headers, print_keep_alive, print_content, print_status,
  inspect,
}

-- The states in front of the end of the status line.
abbrev IsEarly : State → Type 0
IsEarly response_status_start = Unit
IsEarly response_http_version_ht = Unit
IsEarly response_http_version_htt = Unit
IsEarly response_http_version_http = Unit
IsEarly response_http_version_slash = Unit
IsEarly response_http_version_major_start = Unit
IsEarly response_http_version_major = Unit
IsEarly response_http_version_minor_start = Unit
IsEarly response_http_version_minor = Unit
IsEarly response_http_version_status_code_start = Unit
IsEarly response_http_version_status_code = Unit
IsEarly response_http_version_status_text_start = Unit
IsEarly response_http_version_status_text = Unit
IsEarly _ = ⊥

abbrev StaysEarly : Advance → Type 0
StaysEarly (goes m) = IsEarly m.state
StaysEarly (completed m) = ⊥
StaysEarly (refused m) = Unit
StaysEarly (raised e) = ⊥

abbrev NoReturn : ℕ → Type 0
NoReturn c = c ≢ b'\r'

step_in-StaysEarly :
    (st : State) (c : ℕ) (m : Parsing)
    → m.state ≡ st
    → IsEarly st
    → NoReturn c
    → StaysEarly (step_in st c m)
unfolding step_in expect on_slash on_major_start on_major on_minor_start on_minor on_code_start
    on_code on_text_start on_text
step_in-StaysEarly response_status_start c m e h n = ground arith
step_in-StaysEarly response_http_version_ht c m e h n = ground arith
step_in-StaysEarly response_http_version_htt c m e h n = ground arith
step_in-StaysEarly response_http_version_http c m e h n = ground arith
step_in-StaysEarly response_http_version_slash c m e h n = ground arith
step_in-StaysEarly response_http_version_major_start c m e h n = ground arith
step_in-StaysEarly response_http_version_major c m e h n = ground arith
step_in-StaysEarly response_http_version_minor_start c m e h n = ground arith
step_in-StaysEarly response_http_version_minor c m e h n = ground arith
step_in-StaysEarly response_http_version_status_code_start c m e h n = ground arith
step_in-StaysEarly response_http_version_status_code c m e h n = ground arith
step_in-StaysEarly response_http_version_status_text_start c m e h n = ground arith
step_in-StaysEarly response_http_version_status_text c m e h n = ground arith
step_in-StaysEarly _ c m e h n = absurd h

abbrev pub NotCompleted : Outcome → Type 0
NotCompleted (parsing_completed m) = ⊥
NotCompleted _ = Unit

after-NotCompleted :
    (a : Advance) (cs : Bytes)
    → StaysEarly a
    → ((m : Parsing) → IsEarly m.state → NotCompleted (consume m cs))
    → NotCompleted (after a cs)
after-NotCompleted (goes m) cs h ih = ih m h
after-NotCompleted (completed m) cs h ih = absurd h
after-NotCompleted (refused m) cs h ih = tt
after-NotCompleted (raised e) cs h ih = absurd h

consume-NotCompleted :
    (text : Bytes) (m : Parsing)
    → IsEarly m.state
    → All NoReturn text
    → NotCompleted (consume m text)
consume-NotCompleted [] m h p = unfold consume in tt
consume-NotCompleted (c ∷ cs) m h p =
    subst NotCompleted (sym (consume-after m c cs (step_in m.state c m) refl)) (
      after-NotCompleted (step_in m.state c m) cs (step_in-StaysEarly m.state c m refl h p.0)
        (λ (m' : Parsing) (h' : IsEarly m'.state). consume-NotCompleted cs m' h' p.1))

digits-NoReturn :
    (fuel n : ℕ) (rest : Bytes) → All NoReturn rest → All NoReturn (digits fuel n rest)
unfolding digits
digits-NoReturn zero n rest p = p
digits-NoReturn (suc fuel) n rest p = elim (Bool-cases (n / 10 == 0)) [
  | inl e ↦ rw e ((omega arith, p))
  | inr e ↦ rw e (digits-NoReturn fuel (n / 10) ((48 + n % 10) ∷ rest) (omega arith, p))
]

decimal-NoReturn : (n : ℕ) → All NoReturn (decimal n)
unfolding decimal
decimal-NoReturn n = digits-NoReturn 20 n [] tt

decimal_int-NoReturn : (n : ℕ) → All NoReturn (decimal_int n)
unfolding decimal_int
decimal_int-NoReturn n = elim (Bool-cases (ltb n (2 ^ 31))) [
  | inl e ↦ rw e (decimal-NoReturn n)
  | inr e ↦ rw e ((omega arith, decimal-NoReturn (2 ^ 32 - n)))
]

codes-NoReturn :
    All NoReturn (codes "HTTP/")
    × (All NoReturn (codes "Connection: keep-alive\n") × All NoReturn (codes "Content-Length: "))
codes-NoReturn = ground arith

print_keep_alive-NoReturn : (b : Bool) → All NoReturn (print_keep_alive b)
unfolding print_keep_alive
print_keep_alive-NoReturn true = (codes-NoReturn.1).0
print_keep_alive-NoReturn false = tt

print_content-NoReturn : (xs : Bytes) → All NoReturn xs → All NoReturn (print_content xs)
unfolding print_content
print_content-NoReturn xs h =
    All-append NoReturn (codes "Content-Length: ") _ (codes-NoReturn.1).1 (
      All-append NoReturn (decimal (length xs)) _ (decimal-NoReturn (length xs))
        (omega arith, (omega arith, All-append NoReturn xs (b'\n' ∷ []) h (omega arith, tt))))

abbrev pub FieldNoReturn : HeaderItem → Type 0
FieldNoReturn h = All NoReturn h.name × All NoReturn h.value

print_headers-NoReturn :
    (hs : List HeaderItem) → All FieldNoReturn hs → All NoReturn (print_headers hs)
unfolding print_headers
print_headers-NoReturn [] p = tt
print_headers-NoReturn (h ∷ hs) p = All-append NoReturn h.name _ (p.0).0 (
  omega arith,
  (omega arith, All-append NoReturn h.value _ (p.0).1 (omega arith, print_headers-NoReturn hs p.1)),
)

-- What the server prints of a response whose text and fields have no carriage return.
inspect-NoReturn :
    (r : Response)
    → All NoReturn r.status
    → All FieldNoReturn r.headers
    → All NoReturn r.content
    → All NoReturn (inspect r)
unfolding inspect print_status
inspect-NoReturn r s hs cs =
    let P = NoReturn in
    All-append P (codes "HTTP/") _ codes-NoReturn.0 (
      All-append P (decimal_int r.version_major) _ (decimal_int-NoReturn r.version_major) (
        omega arith,
        All-append P (decimal_int r.version_minor) _ (decimal_int-NoReturn r.version_minor) (
          omega arith,
          All-append P (decimal r.status_code) _ (decimal-NoReturn r.status_code) (
            omega arith,
            All-append P r.status _ s (
              omega arith,
              All-append P (print_headers r.headers) _ (print_headers-NoReturn r.headers hs) (
                  All-append P (print_keep_alive r.keep_alive) _
                    (print_keep_alive-NoReturn r.keep_alive) (print_content-NoReturn r.content cs)),
            ),
          ),
        ),
      ))

-- A response whose reason, fields and content hold no carriage return, printed by `inspect`, is
-- never a complete response for a new `HttpResponseParser`, whatever response object it fills.
pub parse-inspect :
    (r r₀ : Response)
    → All NoReturn r.status
    → All FieldNoReturn r.headers
    → All NoReturn r.content
    → NotCompleted (parse (new_parsing r₀) r₀ (inspect r))
unfolding parse
parse-inspect r r₀ s hs cs =
    consume-NotCompleted (inspect r) (new_parsing r₀) tt (inspect-NoReturn r s hs cs)
