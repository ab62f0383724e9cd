-- ===== src/Http/Url/Examples.antt =====
-- The theorems on `UrlParser` at short URLs.
use nicenet.Common.{◌≡◌, refl, arith, some, false, [], ◌∷◌, ◌++◌, All, Bytes, if◌then◌else◌}
use nicenet.Common.Text.{codes, bytes_eq}
use nicenet.Http.Chars.{is_alpha, is_alnum, is_digit}
use nicenet.Http.Url.Types.{new_url, Pass, port_or_password}
use nicenet.Http.Url.Cases.{is_unreserved}
use nicenet.Http.Url.Parse.{parse, http_port}
use nicenet.Http.Url.Scan.{at, without_marks}
use nicenet.Http.Url.Written.{Parts, nobody, known, started, IsParts, write, read, last_state}
use nicenet.Http.Url.RoundTrip.{parse-write}
use nicenet.Http.Url.Refused.{named_by, parse_no_slash, parse_numeric_password}
use nicenet.Http.Url.Safe.{NoBracket, parse_returns, parse_refused}

-- wss://me:1a@h:65616/p?q=?1#f
abbrev target : Parts
target = record {
  scheme = codes "wss";
  user = known (codes "me") (record { lead = codes "1"; mark = b'a'; more = [] });
  host = codes "h";
  port = some (codes "65616");
  path = codes "p";
  query = some (codes "q=?1");
  fragment = some (codes "f");
}

target_text : write target ≡ codes "wss://me:1a@h:65616/p?q=?1#f"
target_text = refl

target-read : read target ≡ record {
  scheme = codes "wss";
  username = codes "me";
  password = codes "1a";
  hostname = codes "h";
  port = codes "65616";
  path = codes "/p";
  query = codes "q=1";
  fragment = codes "f";
  integer_port = 80;
}
unfolding without_marks
target-read = refl

target-IsParts : IsParts target
unfolding is_unreserved is_alnum is_alpha is_digit
target-IsParts = ground arith

parse-write_example : parse (write target) ≡ some (at (last_state target) (read target) [] [])
parse-write_example = parse-write target target-IsParts

abbrev http : Bytes
http = codes "http"

http_ok : All NoBracket http
http_ok = ground arith

parse_no_slash_example :
    let u = record (started http nobody) { hostname = codes "h" } in
    (parse (named_by http (codes "h") (b':' ∷ codes "8080"))
      ≡ some (at port_or_password u (codes "h") (codes "8080")))
    × (http_port u ≡ (if bytes_eq http (codes "https") then 443 else 80))
unfolding is_unreserved is_alnum is_alpha is_digit
parse_no_slash_example =
    parse_no_slash http b'h' [] (codes "8080") (ground arith) (ground arith) (ground arith)

abbrev left_over : Pass
left_over = record {
  state = port_or_password;
  url = record new_url { hostname = codes "u" };
  user_or_host = codes "u";
  port_or_pass = codes "12";
  valid = false;
}

parse_returns_example : (p : Pass) × (parse http ≡ some p)
parse_returns_example = parse_returns http http_ok

digit_password_read :
    parse (named_by http (codes "u") (b':' ∷ (codes "12" ++ (b'@' ∷ [])))) ≡ some left_over
unfolding is_unreserved is_alnum is_alpha is_digit
digit_password_read =
    parse_numeric_password http b'u' [] (codes "12") [] (ground arith) (ground arith) (ground arith)

parse_refused_example : left_over.url ≡ record new_url { hostname = left_over.user_or_host }
parse_refused_example =
    parse_refused (named_by http (codes "u") (b':' ∷ (codes "12" ++ (b'@' ∷ [])))) left_over
      digit_password_read refl
