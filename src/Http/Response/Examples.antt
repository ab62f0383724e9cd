-- ===== src/Http/Response/Examples.antt =====
-- The theorems on the response parser at short responses.
use nicenet.Common.{◌≡◌, ◌≢◌, refl, arith, false, [], ◌∷◌, ◌++◌, All, empty_back}
use nicenet.Common.Text.{codes}
use nicenet.Http.Chars.{c_str, is_char, is_control, is_special}
use nicenet.Http.Numbers.{size_of_atoi}
use nicenet.Text.{str_case_cmp}
use nicenet.Http.Request.Types.{HeaderItem}
use nicenet.Http.Request.Render.{IsField, lines}
use nicenet.Http.Request.Requests.{Announces}
use nicenet.Http.Response.Types.{
  Response, header_line_start, expecting_newline_3, post, new_response, new_parsing,
}
use nicenet.Http.Response.Machine.{parsing_completed, parsing_raised, consume, parse}
use nicenet.Http.Response.Safety.{consume_response_safe}
use nicenet.Http.Response.Print.{inspect}
use nicenet.Http.Response.Printed.{NotCompleted, parse-inspect}
use nicenet.Http.Response.Render.{Code, Head, IsCode, IsHead, render, at}
use nicenet.Http.Response.Headers.{IsQuiet}
use nicenet.Http.Response.Replies.{
  received, handed_over, parse-render_reply, parse-render_reply_body, parse_no_reason,
}

abbrev server : HeaderItem
server = record { name = codes "Via"; value = codes "n 1" }

abbrev content_length : HeaderItem
content_length = record { name = codes "content-length"; value = codes "2" }

abbrev not_found : Code
not_found = record { hundreds = 4; tens = 0; ones = 4 }

not_found-IsCode : IsCode not_found
not_found-IsCode = record {
  leads = omega arith;
  hundreds_ok = omega arith;
  tens_ok = omega arith;
  ones_ok = omega arith;
}

abbrev missing : Head
missing = record {
  major = 1;
  minor = 1;
  code = not_found;
  reason = codes "No";
  headers = server ∷ [];
}

server-IsField : IsField server
unfolding is_char is_control is_special
server-IsField = record {
  name_ok = (refl, (refl, (refl, tt)));
  value_ok = (refl, (refl, (refl, tt)));
}

missing-IsHead : IsHead missing
unfolding is_char
missing-IsHead = record {
  major_ok = omega arith;
  minor_ok = omega arith;
  code_ok = not_found-IsCode;
  reason_ok = ((refl, refl), ((refl, refl), tt));
  fields_ok = (server-IsField, tt);
}

server-IsQuiet : All IsQuiet (server ∷ [])
unfolding str_case_cmp c_str
server-IsQuiet = ((refl, refl), tt)

parse-render_reply_example :
    parse (new_parsing new_response) new_response (render missing (codes "rest"))
    ≡ parsing_completed (at expecting_newline_3 0 false (handed_over missing []))
parse-render_reply_example = parse-render_reply missing (codes "rest") missing-IsHead server-IsQuiet

content_length-Announces : Announces 2 content_length
unfolding is_char is_control is_special str_case_cmp size_of_atoi c_str
content_length-Announces = record {
  field_ok = record { name_ok = ground arith; value_ok = (refl, tt) };
  named = refl;
  counts = refl;
  small = omega arith;
}

abbrev found : Head
found = record missing { headers = server ∷ content_length ∷ [] }

found-IsHead : IsHead found
found-IsHead = record {
  major_ok = omega arith;
  minor_ok = omega arith;
  code_ok = not_found-IsCode;
  reason_ok = missing-IsHead.reason_ok;
  fields_ok = (server-IsField, (content_length-Announces.field_ok, tt));
}

parse-render_reply_body_example :
    parse (new_parsing new_response) new_response (render found (codes "ok" ++ codes "rest"))
    ≡ parsing_completed (at post 0 false (handed_over found (codes "ok")))
parse-render_reply_body_example =
    parse-render_reply_body found (server ∷ []) content_length (codes "ok") (codes "rest")
      found-IsHead refl server-IsQuiet content_length-Announces (omega arith)

abbrev unnamed : Head
unnamed = record missing { reason = [] }

parse_no_reason_example :
    parse (new_parsing new_response) new_response (render unnamed [])
    ≡ consume
        (at header_line_start 0 false
          (record (received unnamed) { headers = []; status = b'\r' ∷ b'\n' ∷ codes "Via: n 1" }))
        (lines [] (b'\r' ∷ b'\n' ∷ []))
unfolding is_char
parse_no_reason_example =
    parse_no_reason unnamed server [] [] (omega arith) (omega arith) not_found-IsCode refl refl
      ((refl, refl), ((refl, refl), ((refl, refl), tt)))
      ((refl, refl), ((refl, refl), ((refl, refl), tt)))

consume_response_safe_example :
    consume (new_parsing new_response) (codes "HTTP/1.1 200 OK\r\n x: y")
    ≢ parsing_raised empty_back
consume_response_safe_example =
    consume_response_safe new_response (codes "HTTP/1.1 200 OK\r\n x: y")

abbrev ok_reply : Response
ok_reply = record new_response {
  status_code = 200;
  status = codes "OK";
  headers = server ∷ [];
  content = codes "hi";
}

parse-inspect_example :
    NotCompleted (parse (new_parsing new_response) new_response (inspect ok_reply))
parse-inspect_example =
    parse-inspect ok_reply new_response (ground arith) (ground arith) (ground arith)
