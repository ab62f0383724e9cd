-- ===== src/Http/Request/Examples.antt =====
-- The theorems on the request parser at short requests.
use nicenet.Common.{◌≡◌, refl, arith, true, false, [], ◌∷◌, ◌++◌, All, inl, inr, empty_back}
use nicenet.Common.Text.{codes, bytes_eq}
use nicenet.Http.Chars.{c_str, is_char, is_control, is_special}
use nicenet.Http.Numbers.{size_of_atoi}
use nicenet.Text.{str_case_cmp}
use nicenet.Http.Request.Types.{HeaderItem, request_method, post, Parsing, new_request, new_parsing}
use nicenet.Http.Request.Fields.{has_body}
use nicenet.Http.Request.Line.{on_method_start, on_method}
use nicenet.Http.Request.Machine.{
  step_in, parsing_completed, parsing_incompleted, parsing_raised, consume, parse,
}
use nicenet.Http.Request.Render.{Head, IsHead, IsField, render, lines, version, at}
use nicenet.Http.Request.Headers.{IsQuiet}
use nicenet.Http.Request.Requests.{handed_over, Announces, parse-render_body}
use nicenet.Http.Request.Reuse.{parse_split_field}
use nicenet.Http.Request.Chunks.{consume-append}

abbrev host : HeaderItem
host = record { name = codes "Host"; value = codes "a.b" }

abbrev get_head : Head
get_head = record {
  method = codes "GET";
  uri = codes "/x?a=1";
  major = 1;
  minor = 1;
  headers = host ∷ [];
}

host-IsField : IsField host
unfolding is_char is_control is_special
host-IsField = record {
  name_ok = (refl, (refl, (refl, (refl, tt))));
  value_ok = (refl, (refl, (refl, tt)));
}

get_head-IsHead : IsHead get_head
unfolding is_char is_control is_special
get_head-IsHead = record {
  method_ok = (refl, (refl, (refl, tt)));
  uri_ok = (
    (refl, refl),
    ((refl, refl), ((refl, refl), ((refl, refl), ((refl, refl), ((refl, refl), tt))))),
  );
  major_ok = omega arith;
  minor_ok = omega arith;
  fields_ok = (host-IsField, tt);
}

get_head-IsQuiet : All (IsQuiet get_head.method) get_head.headers
unfolding bytes_eq
get_head-IsQuiet = (inl refl, tt)

abbrev content_length : HeaderItem
content_length = record { name = codes "content-length"; value = codes "2" }

abbrev post_head : Head
post_head = record {
  method = codes "POST";
  uri = codes "/";
  major = 1;
  minor = 0;
  headers = host ∷ content_length ∷ [];
}

content_length-Announces : Announces 2 content_length
unfolding is_char is_control is_special str_case_cmp size_of_atoi c_str
content_length-Announces = record {
  field_ok = record {
    name_ok = (
      refl,
      (
        refl,
        (
          refl,
          (
            refl,
            (refl, (refl, (refl, (refl, (refl, (refl, (refl, (refl, (refl, (refl, tt)))))))))),
          ),
        ),
      ),
    );
    value_ok = (refl, tt);
  };
  named = refl;
  counts = refl;
  small = omega arith;
}

post_head-IsHead : IsHead post_head
unfolding is_char is_control is_special
post_head-IsHead = record {
  method_ok = (refl, (refl, (refl, (refl, tt))));
  uri_ok = ((refl, refl), tt);
  major_ok = omega arith;
  minor_ok = omega arith;
  fields_ok = (host-IsField, (content_length-Announces.field_ok, tt));
}

host-IsQuiet : All (IsQuiet post_head.method) (host ∷ [])
unfolding str_case_cmp c_str
host-IsQuiet = (inr (refl, refl), tt)

post_has_body : has_body post_head.method ≡ true
unfolding bytes_eq
post_has_body = refl

parse-render_body_example :
    parse (new_parsing new_request) new_request (render post_head (codes "ok" ++ codes "GET"))
    ≡ parsing_completed (at post 0 false (handed_over post_head (codes "ok") 3))
parse-render_body_example =
    parse-render_body post_head (host ∷ []) content_length (codes "ok") (codes "GET")
      post_head-IsHead refl post_has_body host-IsQuiet content_length-Announces (omega arith)

parse_split_field_example :
    let front =
      get_head.method
      ++ (b' '
          ∷ (get_head.uri
              ++ (b' '
                  ∷ version 1 1 (
                      lines get_head.headers
                        (host.name ++ (b':' ∷ b' ' ∷ (host.value ++ []))))))) in
    (m : Parsing) × (parse (new_parsing new_request) new_request front ≡ parsing_incompleted m)
    × (parse m new_request (codes "com") ≡ parsing_raised empty_back)
unfolding is_control
parse_split_field_example =
    parse_split_field get_head host b'c' (codes "om") get_head-IsHead get_head-IsQuiet host-IsField
      refl

abbrev method_read : Parsing
method_read = at request_method 0 false (record new_request { method = codes "GE" })

ge_incomplete : consume (new_parsing new_request) (codes "GE") ≡ parsing_incompleted method_read
unfolding consume step_in on_method_start on_method is_char is_control is_special
ge_incomplete = refl

consume-append_example :
    consume (new_parsing new_request) (codes "GE" ++ codes "T / HTTP/1.1")
    ≡ consume method_read (codes "T / HTTP/1.1")
consume-append_example =
    consume-append (codes "GE") (codes "T / HTTP/1.1") (new_parsing new_request) method_read
      ge_incomplete
