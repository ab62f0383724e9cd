-- ===== src/Http/Response/Print.antt =====
-- `HttpResponseBase::inspect`, the text that a server sends.
use nicenet.Common.{
  ℕ, zero, suc, ◌+◌, ◌-◌, ◌/◌, ◌%◌, ◌^◌, Bool, true, false, List, [], ◌∷◌, ◌++◌, ltb, ◌==◌,
  if◌then◌else◌, length, Bytes,
}
use nicenet.Common.Text.{codes}
use nicenet.Http.Request.Types.{HeaderItem}
use nicenet.Http.Response.Types.{Response}

-- the decimal digits of a number in front of `rest`; `fuel` is at least their count
unfoldable pub digits : ℕ → ℕ → Bytes → Bytes
digits zero n rest = rest
digits (suc fuel) n rest =
    let more = digits fuel (n / 10) ((48 + n % 10) ∷ rest) in
    if n / 10 == 0 then (48 + n % 10) ∷ rest else more

-- what a stream prints of a number: 20 digits are enough for 64 bits
unfoldable pub decimal : ℕ → Bytes
unfolding digits
decimal n = digits 20 n []

-- of an int, given by its 32 bits
unfoldable pub decimal_int : ℕ → Bytes
unfolding decimal
decimal_int n = if ltb n (2 ^ 31) then decimal n else b'-' ∷ decimal (2 ^ 32 - n)

unfoldable pub print_headers : List HeaderItem → Bytes
print_headers [] = []
print_headers (h ∷ hs) = h.name ++ (b':' ∷ b' ' ∷ (h.value ++ (b'\n' ∷ print_headers hs)))

unfoldable pub print_keep_alive : Bool → Bytes
print_keep_alive true = codes "Connection: keep-alive\n"
print_keep_alive false = []

unfoldable pub print_content : Bytes → Bytes
unfolding decimal
print_content content =
    codes "Content-Length: "
    ++ (decimal (length content) ++ (b'\n' ∷ b'\n' ∷ (content ++ b'\n' ∷ [])))

unfoldable pub print_status : Response → Bytes → Bytes
unfolding decimal_int decimal
print_status r rest =
    codes "HTTP/"
    ++ (decimal_int r.version_major
        ++ (b'.'
            ∷ (decimal_int r.version_minor
                ++ (b' ' ∷ (decimal r.status_code ++ (b' ' ∷ (r.status ++ (b'\n' ∷ rest))))))))

unfoldable pub inspect : Response → Bytes
unfolding print_status print_headers print_keep_alive print_content
inspect r =
    print_status r
      (print_headers r.headers ++ (print_keep_alive r.keep_alive ++ print_content r.content))
