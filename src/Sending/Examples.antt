-- ===== src/Sending/Examples.antt =====
-- The theorems on the queue at two small messages and one without a block.
use nicenet.Common.{refl, arith, true, false, some, [], ◌∷◌, Bytes}
use nicenet.Message.{Message, null, heap}
use nicenet.Sending.{Sender, new_sender, of_front}
use nicenet.Sending.Steps.{live}
use nicenet.Sending.Calls.{Keeps}
use nicenet.Sending.Order.{sends, writes, run, bytes_sent, run_in_order}
use nicenet.Sending.Drain.{Drained, complete_all, complete_all-Drained}

abbrev one : Message
one = record { buff = heap (6 ∷ 0 ∷ 0 ∷ 0 ∷ 1 ∷ 0 ∷ []); write_point = 6; read_point = 6 }

abbrev two : Message
two = record { buff = heap (7 ∷ 0 ∷ 0 ∷ 0 ∷ 2 ∷ 0 ∷ 9 ∷ []); write_point = 7; read_point = 6 }

abbrev nothing : Message
nothing = record { buff = null; write_point = 6; read_point = 6 }

-- The second and the third message wait for the first write.
run_in_order_example :
    Keeps
      (run (sends one ∷ sends nothing ∷ sends two ∷ writes false 6 ∷ writes true 0 ∷ []) new_sender)
      (bytes_sent (sends one ∷ sends nothing ∷ sends two ∷ writes false 6 ∷ writes true 0 ∷ []))
run_in_order_example =
    run_in_order (sends one ∷ sends nothing ∷ sends two ∷ writes false 6 ∷ writes true 0 ∷ [])
      ((refl, omega arith), (tt, ((refl, omega arith), (tt, (tt, tt)))))

-- The first message is being written and two more wait.
abbrev sending_one : Sender
sending_one = record new_sender {
  send_list = one ∷ two ∷ one ∷ [];
  is_sending = true;
  writing = some (of_front 6);
  written = 6 ∷ 0 ∷ 0 ∷ 0 ∷ 1 ∷ 0 ∷ [];
}

abbrev all_queued : Bytes
all_queued = 6 ∷ 0 ∷ 0 ∷ 0 ∷ 1 ∷ 0 ∷ 7 ∷ 0 ∷ 0 ∷ 0 ∷ 2 ∷ 0 ∷ 9 ∷ 6 ∷ 0 ∷ 0 ∷ 0 ∷ 1 ∷ 0 ∷ []

complete_all-Drained_example : Drained (complete_all 3 sending_one) all_queued
complete_all-Drained_example =
    complete_all-Drained 3 sending_one all_queued
      (live refl (record {
        sendable = ((refl, omega arith), ((refl, omega arith), ((refl, omega arith), tt)));
        in_order = refl;
        agrees = refl;
      }))
      refl (omega arith)
