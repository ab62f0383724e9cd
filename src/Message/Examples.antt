-- ===== src/Message/Examples.antt =====
-- The theorems on messages at a struct of a string and a vector of two 32-bit numbers.
use nicenet.Common.{
  ℕ, ◌+◌, ◌≡◌, refl, arith, [], ◌∷◌, ◌++◌, take, le_bytes, ok, fault, null_dereference, some,
  to_option,
}
use mathlib.Core.Option
use nicenet.Message.{block_of, Message, empty, from_buffer, get_size, get_msg_id}
use nicenet.Message.Codec.{Ty, u32, oper, str, vec, both, Val, get, to_msg}
use nicenet.Message.Layout.{enc, size, Fits}
use nicenet.Message.Read.{reader, bare}
use nicenet.Message.RoundTrip.{get-to_msg, to_msg_leak}
use nicenet.Message.Truncated.{get_truncated}

abbrev login : Ty
login = both str (vec oper)

abbrev value : Val login
value = (104 ∷ 105 ∷ [], 7 ∷ 70000 ∷ [])

value-Fits : Fits login value
value-Fits = (omega arith, (omega arith, (omega arith, (omega arith, tt))))

garbage : ℕ → ℕ
garbage i = 205

-- No type has a default of its own, and the vector that is read into has one element.
abbrev defaults : (t : Ty) → Val t
defaults = bare

get-to_msg_example :
    (sent : Message) × (received : Message) × (after : Message) × (to_msg garbage login 4097 value
        empty
      ≡ ok sent)
    × (get_size sent ≡ 6 + size login value)
    × (from_buffer garbage (block_of sent ++ (1 ∷ 2 ∷ [])) (get_size sent) ≡ ok received)
    × (get_msg_id received ≡ 4097)
    × (get bare login (bare login) received ≡ ok (value, after))
    × (get defaults login ([], 9 ∷ []) received ≡ ok ((104 ∷ 105 ∷ [], 9 ∷ 7 ∷ 70000 ∷ []), after))
unfolding size
get-to_msg_example =
    get-to_msg garbage login 4097 value value-Fits (omega arith) (omega arith) garbage empty
      (1 ∷ 2 ∷ []) defaults ([], 9 ∷ [])

to_msg_leak_example :
    Option.map block_of (to_option (to_msg garbage u32 3 258 empty))
    ≡ some (
        le_bytes 4 14
        ++ (le_bytes 2 3
            ++ (le_bytes 4 258 ++ (garbage 10 ∷ garbage 11 ∷ garbage 12 ∷ garbage 13 ∷ []))))
to_msg_leak_example = to_msg_leak garbage 3 258 empty (omega arith) (omega arith)

get_truncated_example :
    get defaults login
      ([], 9 ∷ [])
      (reader 6 (le_bytes 4 11 ++ (1 ∷ 0 ∷ []) ++ take 5 (enc login value)) 6)
    ≡ fault null_dereference
unfolding enc
get_truncated_example =
    get_truncated defaults login ([], 9 ∷ []) value 6 (le_bytes 4 11 ++ (1 ∷ 0 ∷ [])) 5 value-Fits
      refl (omega arith) refl (omega arith)
