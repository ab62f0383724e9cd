-- ===== src/Keys/Examples.antt =====
-- The theorems on keys, with a stand-in for the curve.
use nicenet.Common.{◌≡◌, refl, arith, true, Option, some, [], ◌∷◌, Bytes, ok}
use nicenet.Keys.{Server, set_private_key_string, get_private_key_string}
use nicenet.Keys.Set.{set-get_private_key_string, Sets, set_private_key_string-Sets}

-- a stand-in: every key is its own public key
abbrev same_key : Bytes → Option Bytes
same_key k = some k

abbrev eight : Bytes → Bytes
eight ks = 0 ∷ 9 ∷ 10 ∷ 16 ∷ 127 ∷ 160 ∷ 171 ∷ 255 ∷ ks

abbrev key : Bytes
key = eight (eight (eight (eight [])))

abbrev holder : Server
holder = record { private_key = key; public_key = key }

abbrev blank : Server
blank = record { private_key = []; public_key = [] }

set-get_private_key_string_example :
    set_private_key_string same_key (get_private_key_string holder) blank ≡ ok (true, holder)
set-get_private_key_string_example =
    set-get_private_key_string same_key holder blank
      (record { size = refl; bytes = omega arith; matches = refl })

set_private_key_string-Sets_example :
    Sets same_key blank (set_private_key_string same_key (get_private_key_string holder) blank)
set_private_key_string-Sets_example =
    set_private_key_string-Sets same_key (get_private_key_string holder) blank
