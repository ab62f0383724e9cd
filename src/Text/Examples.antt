-- ===== src/Text/Examples.antt =====
-- The theorems on strings at inputs of the HTTP server.
use nicenet.Common.{◌≡◌, ◌↔◌}
use nicenet.Common.Text.{codes}
use nicenet.Text.{str_case_cmp}
use nicenet.Text.Compare.{SameText, str_case_cmp_iff}

str_case_cmp_iff_example :
    (str_case_cmp (codes "Keep-Alive") (codes "keep-alive") ≡ 0)
    ↔ SameText (codes "Keep-Alive") (codes "keep-alive")
str_case_cmp_iff_example = str_case_cmp_iff (codes "Keep-Alive") (codes "keep-alive")
