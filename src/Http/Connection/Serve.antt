-- ===== src/Http/Connection/Serve.antt =====
-- Requests on a connection, the first and the next.
use nicenet.Common.{
  ℕ, ◌≤◌, take, take_all, ◌-◌, ◌≡◌, ◌≢◌, refl, sym, ap, ◌∙◌, arith, Bool, true, false, Option, none,
  some, [], ◌∷◌, length, drop, drop_all, All, Bytes, le→ltb, if◌then◌else◌, out_of_bounds,
}
use nicenet.Http.Request.Types.{Parsing, new_parsing, new_request, expecting_newline_3}
use nicenet.Http.Request.Fields.{keeps_alive}
use nicenet.Http.Request.Machine.{
  Outcome, parsing_completed, parsing_incompleted, parsing_error, parsing_raised, parse,
}
use nicenet.Http.Request.Render.{Head, render, IsHead, at}
use nicenet.Http.Request.Headers.{IsQuiet}
use nicenet.Http.Request.Requests.{received, handed_over, parse-render}
use nicenet.Http.Request.Reuse.{parse_next}
use nicenet.Framing.{network_buf_size}
use nicenet.Http.Connection.{
  Target, Connection, Served, handles, drops, raises, read_target, remain_of, on_completed,
  on_parsed, text_of, on_received, on_read,
}

abbrev pub new_connection : Connection
new_connection = record { parser = new_parsing new_request; buffer = [] }

-- the connection after a request without a body and nothing behind it
abbrev pub after_request : Head → Connection
after_request h = record {
  parser = at expecting_newline_3 0 false (handed_over h [] 0);
  buffer = [];
}

first_read :
    (routes : Bytes → Bool) (text : Bytes) (m : Parsing)
    → parse (new_parsing new_request) new_request text ≡ parsing_completed m
    → on_received routes text new_connection ≡ on_completed routes text m
unfolding on_received on_parsed text_of parse
first_read routes [] m e = absurd cc
first_read routes (c ∷ cs) m e = ap (on_parsed routes (c ∷ cs) []) e

nothing_left : (s : Bytes) → remain_of 0 s ≡ 0
unfolding remain_of
nothing_left s = refl

handled :
    (routes : Bytes → Bool) (text : Bytes) (h : Head) (target : Target)
    → read_target h.uri ≡ some target
    → routes target.path ≡ true
    → on_completed routes text (at expecting_newline_3 0 false (handed_over h [] 0))
      ≡ handles (handed_over h [] 0) target (keeps_alive (received h)) (after_request h)
unfolding on_completed
handled routes text h target e route =
    let m = at expecting_newline_3 0 false (handed_over h [] 0) in
    let conn : Connection = record {
      parser = m;
      buffer = drop (length text - remain_of 0 text) text;
    } in
    let serve =
      λ (t : Target). if routes t.path then handles m.req t m.req.keep_alive conn else drops in
    let split = λ (o : Option Target). elim o as (λ (x : Option Target). Served) [
      | none ↦ raises out_of_bounds
      | some t ↦ serve t
    ] in
    let whole = drop_all (length text - remain_of 0 text) text (omega (arith, nothing_left text)) in
    ap (λ (b : Bool). if b then drops else split (read_target h.uri))
      (le→ltb (length text) 0 (omega arith))
    ∙ ap split e
    ∙ ap (λ (b : Bool). if b then handles m.req target m.req.keep_alive conn else drops) route
    ∙ ap (λ (b : Bytes). handles m.req target m.req.keep_alive (record { parser = m; buffer = b }))
        whole

parsing_of : Parsing → Outcome → Parsing
parsing_of d (parsing_completed m) = m
parsing_of d (parsing_incompleted m) = d
parsing_of d (parsing_error m) = d
parsing_of d (parsing_raised e) = d

refused_next :
    (routes : Bytes → Bool) (c : ℕ) (cs : Bytes) (m m' : Parsing)
    → parse m new_request (c ∷ cs) ≡ parsing_error m'
    → on_received routes (c ∷ cs) (record { parser = m; buffer = [] }) ≡ drops
unfolding on_received on_parsed text_of
refused_next routes c cs m m' e = ap (on_parsed routes (c ∷ cs) []) e

-- A request without a body and without fields that the parser acts on, of at most
-- NETWORK_BUF_SIZE bytes that one read takes from a new connection with nothing behind them: the
-- handler of its path, if there is one, is posted with the request, the path and the parameters,
-- where the target can be split. What the next read brings is dropped, unless it begins with a line
-- feed, also where the connection was to be kept.
pub on_read-render :
    (routes : Bytes → Bool) (h : Head) (target : Target) (c : ℕ) (cs : Bytes)
    → IsHead h
    → All (IsQuiet h.method) h.headers
    → length (render h []) ≤ network_buf_size
    → read_target h.uri ≡ some target
    → routes target.path ≡ true
    → c ≢ b'\n'
    → (on_read routes (render h []) new_connection
        ≡ handles (handed_over h [] 0) target (keeps_alive (received h)) (after_request h))
      × (on_read routes (c ∷ cs) (after_request h) ≡ drops)
unfolding parsing_of on_read
on_read-render routes h target c cs k q fits e route ne =
    let m = at expecting_newline_3 0 false (handed_over h [] 0) in
    let first = parse-render h [] k q in
    let (n, n', parsed, refused) = parse_next h [] new_request c (take 16383 cs) k q ne in
    let same : n ≡ m = ap (parsing_of m) (sym parsed ∙ first) in
    (
      ap (λ (t : Bytes). on_received routes t new_connection)
            (take_all network_buf_size (render h []) fits)
          ∙ first_read routes (render h []) m first
          ∙ handled routes (render h []) h target e route,
      refused_next routes c (take 16383 cs) m n'
          (ap (λ (p : Parsing). parse p new_request (c ∷ take 16383 cs)) (sym same) ∙ refused),
    )
