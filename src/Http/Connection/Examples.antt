-- ===== src/Http/Connection/Examples.antt =====
-- The theorems on connections at a request with two parameters.
use nicenet.Common.{◌≡◌, refl, arith, true, some, [], ◌∷◌, All, inl}
use nicenet.Common.Text.{codes, bytes_eq}
use nicenet.Common.Table.{insert}
use nicenet.Http.Chars.{is_char, is_control, is_special}
use nicenet.Http.Request.Types.{HeaderItem}
use nicenet.Http.Request.Fields.{keeps_alive}
use nicenet.Http.Request.Render.{Head, render, IsHead}
use nicenet.Http.Request.Headers.{IsQuiet}
use nicenet.Http.Request.Requests.{received, handed_over}
use nicenet.Http.Connection.{Target, read_target, on_read, handles, drops}
use nicenet.Http.Connection.Query.{read_target-pairs}
use nicenet.Http.Connection.Serve.{new_connection, after_request, on_read-render}

read_target-pairs_example :
    read_target (codes "/x?a=1&b=22")
    ≡ some (record {
      path = codes "/x";
      params_string = codes "a=1&b=22";
      params = (codes "a", codes "1") ∷ (codes "b", codes "22") ∷ [];
    })
unfolding insert bytes_eq
read_target-pairs_example =
    read_target-pairs (codes "/x") (codes "a", codes "1") ((codes "b", codes "22") ∷ [])
      (ground arith) (ground arith)

abbrev host : HeaderItem
host = record { name = codes "Host"; value = codes "h.x" }

abbrev get_head : Head
get_head = record {
  method = codes "GET";
  uri = codes "/x?a=1";
  major = 1;
  minor = 1;
  headers = host ∷ [];
}

abbrev target : Target
target = record {
  path = codes "/x";
  params_string = codes "a=1";
  params = (codes "a", codes "1") ∷ [];
}

get_head-IsHead : IsHead get_head
unfolding is_char is_control is_special
get_head-IsHead = record {
  method_ok = (refl, (refl, (refl, tt)));
  uri_ok = (
    (refl, refl),
    ((refl, refl), ((refl, refl), ((refl, refl), ((refl, refl), ((refl, refl), tt))))),
  );
  major_ok = omega arith;
  minor_ok = omega arith;
  fields_ok = (
    record { name_ok = (refl, (refl, (refl, (refl, tt)))); value_ok = (refl, (refl, (refl, tt))) },
    tt,
  );
}

get_head-IsQuiet : All (IsQuiet get_head.method) get_head.headers
unfolding bytes_eq
get_head-IsQuiet = (inl refl, tt)

split_uri : read_target get_head.uri ≡ some target
unfolding insert
split_uri = read_target-pairs (codes "/x") (codes "a", codes "1") [] (ground arith) (ground arith)

on_read-render_example :
    (on_read (λ path. true) (render get_head []) new_connection
      ≡ handles
          (handed_over get_head [] 0)
          target
          (keeps_alive (received get_head))
          (after_request get_head))
    × (on_read (λ path. true) (codes "GET / HTTP/1.1") (after_request get_head) ≡ drops)
on_read-render_example =
    on_read-render (λ path. true) get_head target b'G' (codes "ET / HTTP/1.1") get_head-IsHead
      get_head-IsQuiet (omega arith) split_uri refl (λ e. omega arith)
