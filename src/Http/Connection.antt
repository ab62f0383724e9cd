-- ===== src/Http/Connection.antt =====
-- HttpServer.cpp: what an `HttpConnection` does with what it has read, up to the function that it
-- posts for a handler. `routes` tells the keys of `m_handles`.
pub mod Query
pub mod Serve
mod Examples
use mathlib.Core.Option.{bind}
use nicenet.Common.{
  ℕ, ◌-◌, Bool, true, false, ◌&&◌, Option, none, some, List, [], ◌∷◌, ◌++◌, ltb, ◌==◌,
  if◌then◌else◌, length, take, drop, get_elem?, Bytes, Fault, out_of_bounds,
}
use nicenet.Common.Table.{Table, insert}
use nicenet.Framing.{network_buf_size}
use nicenet.Text.{split_string}
use nicenet.Http.Request.Types.{Request, Parsing, new_request}
use nicenet.Http.Request.Machine.{
  Outcome, parsing_completed, parsing_incompleted, parsing_error, parsing_raised, parse,
}

-- `uri`, `paramsString` and `params` after the handler has split the target
pub record Target : Type 0 where
  pub path : Bytes
  pub params_string : Bytes
  pub params : Table Bytes

unfoldable pub add_pair : List Bytes → Table Bytes → Table Bytes
unfolding insert
add_pair [] params = params
add_pair (k ∷ []) params = params
add_pair (k ∷ v ∷ more) params = insert k v params

unfoldable pub add_params : List Bytes → Table Bytes → Option (Table Bytes)
unfolding split_string add_pair
add_params [] params = some params
add_params (s ∷ ss) params = bind (split_string s b'=') (λ ss3. add_params ss (add_pair ss3 params))

unfoldable pub last_of : Bytes → List Bytes → Bytes
last_of p [] = p
last_of p (q ∷ qs) = last_of q qs

unfoldable pub target_of : List Bytes → Option Target
unfolding split_string add_params last_of
target_of [] = none
target_of (p ∷ []) = some (record { path = p; params_string = []; params = [] })
target_of (p ∷ q ∷ qs) = bind (split_string (last_of q qs) b'&') (λ ss2.
    bind (add_params ss2 [])
      (λ params. some (record { path = p; params_string = last_of q qs; params = params })))

-- None where the fuel of `splitString` ran out, or `ss[0]` is none of its pieces.
unfoldable pub read_target : Bytes → Option Target
unfolding split_string target_of
read_target uri = bind (split_string uri b'?') target_of

pub record Connection : Type 0 where
  pub parser : Parsing
  pub buffer : Bytes

pub data Served : Type 0 where
  -- the handler returns and nothing waits for the next read
  drops : Served
  waits : Connection → Served
  -- the handler of the target is posted; true where the connection waits for the next read
  handles : Request → Target → Bool → Connection → Served
  raises : Fault → Served

-- the bytes behind the request, less a zero byte in front of them
unfoldable pub remain_of : ℕ → Bytes → ℕ
remain_of remain received =
    let zero_first : Bool = elim (get_elem? received (length received - remain)) [
      | none ↦ false
      | some b ↦ b == 0
    ] in
    if ltb 0 remain && zero_first then remain - 1 else remain

unfoldable pub on_completed : (Bytes → Bool) → Bytes → Parsing → Served
unfolding read_target remain_of
on_completed routes received m =
    let left = remain_of m.req.remain_size received in
    let conn : Connection = record {
      parser = m;
      buffer = drop (length received - left) received;
    } in
    if ltb (length received) m.req.remain_size then drops else elim (read_target m.req.uri) [
      | none ↦ raises out_of_bounds
      | some target ↦
          if routes target.path then handles m.req target m.req.keep_alive conn else drops
    ]

unfoldable pub on_parsed : (Bytes → Bool) → Bytes → Bytes → Outcome → Served
unfolding on_completed
on_parsed routes received buffer (parsing_completed m) = on_completed routes received m
on_parsed routes received buffer (parsing_incompleted m) =
    waits (record { parser = m; buffer = buffer })
on_parsed routes received buffer (parsing_error m) = drops
on_parsed routes received buffer (parsing_raised e) = raises e

-- The text that is parsed: with bytes kept from the last read, as many bytes from their first on
-- as were received.
unfoldable pub text_of : Bytes → Bytes → Bytes × Bytes
text_of [] received = ([], received)
text_of (b ∷ bs) received = ((b ∷ bs) ++ received, take (length received) ((b ∷ bs) ++ received))

-- The handler of `start` behind `read_some`.
unfoldable pub on_received : (Bytes → Bool) → Bytes → Connection → Served
unfolding parse on_parsed text_of
on_received routes [] conn = drops
on_received routes (c ∷ cs) conn =
    let (buffer, text) = text_of conn.buffer (c ∷ cs) in
    on_parsed routes (c ∷ cs) buffer (parse conn.parser new_request text)

-- The handler of `start`: `arrived` is what the socket has, of which `read_some` takes as much as
-- there is room for in `data_`.
unfoldable pub on_read : (Bytes → Bool) → Bytes → Connection → Served
unfolding on_received
on_read routes arrived conn = on_received routes (take network_buf_size arrived) conn
