-- ===== src/Framing/Examples.antt =====
-- The theorems on `parseMsg` at a message of eight bytes.
use nicenet.Common.{ℕ, zero, suc, ◌≡◌, refl, arith, true, [], ◌∷◌, ◌++◌, Bytes, null_dereference}
use nicenet.Message.{inline, empty}
use nicenet.Framing.{Session, returned, faulted, unfinished, parse_msg}
use nicenet.Framing.Pending.{IsFrame, IsFront, Pending, header}
use nicenet.Framing.Frames.{Cuts, join, parse_msg-join}
use nicenet.Framing.Split.{parse_msg_grows, parse_msg_ends, parse_msg_split}
use nicenet.Framing.Headers.{NoZeroHeader, parse_msg_zero}

garbage : ℕ → ℕ
garbage i = 205

abbrev idle : Session
idle = record { prev = empty; posted = [] }

abbrev frame : Bytes
frame = 8 ∷ 0 ∷ 0 ∷ 0 ∷ 1 ∷ 0 ∷ 9 ∷ 9 ∷ []

abbrev rest : Bytes
rest = 1 ∷ 0 ∷ 9 ∷ 9 ∷ []

frame-IsFrame : IsFrame frame
frame-IsFrame = record {
  counted = refl;
  least = omega arith;
  most = omega arith;
  bytes = omega arith;
}

five_bytes-IsFront : IsFront (8 ∷ 0 ∷ 0 ∷ 0 ∷ 1 ∷ [])
five_bytes-IsFront = record { bytes = omega arith; short = λ h. (omega arith, omega arith) }

-- two bytes of a header are there
abbrev begun : Session
begun = record { prev = record { buff = inline; write_point = 8; read_point = 2 }; posted = [] }

begun-Pending : Pending begun.prev (8 ∷ 0 ∷ [])
begun-Pending = header (0 ∷ 0 ∷ []) refl refl refl (omega arith)

parse_msg-join_example :
    Cuts garbage 3 idle (join (frame ∷ frame ∷ []) (8 ∷ 0 ∷ [])) (frame ∷ frame ∷ []) (8 ∷ 0 ∷ [])
parse_msg-join_example =
    parse_msg-join garbage (frame ∷ frame ∷ []) (8 ∷ 0 ∷ []) 3 idle refl
      (frame-IsFrame, (frame-IsFrame, tt))
      (record { bytes = omega arith; short = λ h. absurd (omega arith) }) (λ p. cc) (omega arith)
      (omega arith)

parse_msg_grows_example : Cuts garbage 1 begun (0 ∷ 0 ∷ 1 ∷ []) [] (8 ∷ 0 ∷ 0 ∷ 0 ∷ 1 ∷ [])
parse_msg_grows_example =
    parse_msg_grows garbage 0 begun (8 ∷ 0 ∷ []) (0 ∷ 0 ∷ 1 ∷ []) begun-Pending five_bytes-IsFront
      (omega arith)

parse_msg_ends_example :
    parse_msg garbage 1 begun (0 ∷ 0 ∷ 1 ∷ 0 ∷ 9 ∷ 9 ∷ 7 ∷ []) ≡ faulted null_dereference
parse_msg_ends_example =
    parse_msg_ends garbage 0 begun (8 ∷ 0 ∷ []) (0 ∷ 0 ∷ 1 ∷ 0 ∷ 9 ∷ 9 ∷ []) (7 ∷ []) begun-Pending
      (λ p. cc) frame-IsFrame (omega arith)

parse_msg_split_example :
    (s' : Session) × (parse_msg garbage 1 idle (8 ∷ 0 ∷ 0 ∷ 0 ∷ []) ≡ returned true s')
    × (s'.posted ≡ idle.posted)
    × (parse_msg garbage 1 s' (rest ++ (5 ∷ [])) ≡ faulted null_dereference)
parse_msg_split_example =
    parse_msg_split garbage 0 0 idle (8 ∷ 0 ∷ 0 ∷ 0 ∷ []) rest (5 ∷ []) refl frame-IsFrame (λ p. cc)
      (λ p. cc) (omega arith) (omega arith)

parse_msg_zero_example : parse_msg garbage 1000 idle (0 ∷ 0 ∷ 0 ∷ 0 ∷ 9 ∷ []) ≡ unfinished
parse_msg_zero_example =
    parse_msg_zero garbage 1000 idle (0 ∷ 0 ∷ 0 ∷ 0 ∷ 9 ∷ []) refl (omega arith) (omega arith) refl

no_zeros : NoZeroHeader (8 ∷ 0 ∷ 0 ∷ 0 ∷ 1 ∷ [])
no_zeros zero h = omega arith
no_zeros (suc zero) h = omega arith
no_zeros (suc (suc k)) h = absurd (omega arith)
