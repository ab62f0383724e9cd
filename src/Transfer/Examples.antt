-- ===== src/Transfer/Examples.antt =====
-- Two messages from one session to another.
use nicenet.Common.{◌≡◌, refl, arith, true, some, [], ◌∷◌, ok, List, Bytes}
use nicenet.Message.{Message, null, heap}
use nicenet.Framing.{Session}
use nicenet.Framing.Frames.{join}
use nicenet.Framing.Pending.{IsFrame}
use nicenet.Framing.Reading.{IsRead, waits, do_read, all_frames, reads_of, all_posted}
use nicenet.Sending.{Sender, new_sender, of_front, do_send, enqueue}
use nicenet.Sending.Order.{sends, run}
use nicenet.Sending.Drain.{complete_all}
use nicenet.Transfer.{blocks, transfer_lem}

abbrev plain : Message
plain = record { buff = heap (6 ∷ 0 ∷ 0 ∷ 0 ∷ 1 ∷ 0 ∷ []); write_point = 6; read_point = 6 }

abbrev sender : Sender
sender = record new_sender {
  send_list = plain ∷ plain ∷ [];
  is_sending = true;
  writing = some (of_front 6);
  written = 6 ∷ 0 ∷ 0 ∷ 0 ∷ 1 ∷ 0 ∷ [];
}

two_sent : run (sends plain ∷ sends plain ∷ []) new_sender ≡ ok sender
unfolding run enqueue do_send
two_sent = refl

abbrev idle : Session
idle = record { prev = record { buff = null; write_point = 6; read_point = 6 }; posted = [] }

plain-IsFrame : IsFrame (6 ∷ 0 ∷ 0 ∷ 0 ∷ 1 ∷ 0 ∷ [])
plain-IsFrame = record {
  counted = refl;
  least = omega arith;
  most = omega arith;
  bytes = omega arith;
}

plain-IsRead : IsRead 2 ((6 ∷ 0 ∷ 0 ∷ 0 ∷ 1 ∷ 0 ∷ []) ∷ [])
plain-IsRead = record {
  frames = (plain-IsFrame, tt);
  some_frame = λ p. cc;
  fits = omega arith;
  enough = omega arith;
}

abbrev one_by_one : List (List Bytes)
one_by_one = ((6 ∷ 0 ∷ 0 ∷ 0 ∷ 1 ∷ 0 ∷ []) ∷ []) ∷ ((6 ∷ 0 ∷ 0 ∷ 0 ∷ 1 ∷ 0 ∷ []) ∷ []) ∷ []

transfer_lem_example :
    (after : Sender) × (complete_all 2 sender ≡ ok after)
    × (after.written ≡ join (all_frames one_by_one) [])
    × (do_read (λ i. 0) 2 (reads_of one_by_one) idle
        ≡ waits (all_posted (blocks (sends plain ∷ sends plain ∷ [])) idle))
transfer_lem_example =
    transfer_lem (sends plain ∷ sends plain ∷ []) sender 2 (λ i. 0) 2 one_by_one idle
      ((refl, omega arith), ((refl, omega arith), tt)) two_sent refl (omega arith) refl
      (plain-IsRead, (plain-IsRead, tt)) refl
