-- ===== src/Sending/Steps.antt =====
-- The invariant of the queue, function by function.
use nicenet.Common.{
  ℕ, suc, ◌+◌, ◌%◌, ◌^◌, ◌≤◌, ◌≡◌, refl, ap, ◌∙◌, arith, Bool, true, false, Option, none, some,
  List, [], ◌∷◌, ◌++◌, append_assoc, leb, length, All, Bytes, Result, ok, Bool-cases, inl, inr,
  leb→le, le→ltb,
}
use nicenet.Framing.{network_buf_size}
use nicenet.Message.{Message, get_size, block_of}
use nicenet.Sending.{
  Sender, Write, gathered, of_front, drop_null, gather, write_gathered, write_front, send_queue,
  do_send,
}
use nicenet.Sending.Gather.{
  IsSendable, bytes_of, slice_block, get_size-length, drop_null_lem, gather-Gathers,
}

-- What the queue holds beyond the bytes that were handed to `async_write`.
abbrev pub waiting : Option Write → List Message → Bytes
waiting none ms = bytes_of ms
waiting (some (gathered n)) ms = bytes_of ms
waiting (some (of_front n)) [] = []
waiting (some (of_front n)) (m ∷ ms) = bytes_of ms

-- A write is in progress exactly while `m_IsSending` is set, and without one nothing waits.
abbrev pub Agrees : Option Write → Bool → List Message → Type 0
Agrees none sending ms = (sending ≡ false) × (ms ≡ [])
Agrees (some (gathered n)) sending ms = sending ≡ true
Agrees (some (of_front n)) sending [] = ⊥
Agrees (some (of_front n)) sending (m ∷ ms) = sending ≡ true

-- `total` is all that was queued so far, and no write has ended in an error.
pub record Live (s : Sender) (total : Bytes) : Type 0 where
  pub sendable : All IsSendable s.send_list
  pub in_order : s.written ++ waiting s.writing s.send_list ≡ total
  pub agrees : Agrees s.writing s.is_sending s.send_list

-- After an error no write is in progress, `m_IsSending` stays set, so that none is started, and what
-- was written is a front of `total`.
pub data Inv (s : Sender) (total : Bytes) : Type 0 where
  live : s.removed ≡ false → Live s total → Inv s total
  broken :
      s.removed ≡ true
      → s.is_sending ≡ true
      → s.writing ≡ none
      → (rest : Bytes) → s.written ++ rest ≡ total
      → Inv s total

pub Inv-Live : (s : Sender) (total : Bytes) → Inv s total → s.removed ≡ false → Live s total
Inv-Live s total (live here l) e = l
Inv-Live s total (broken gone busy idle rest w) e = absurd (cc)

-- The writes that have still to end.
abbrev pub pending : Option Write → List Message → ℕ
pending none ms = 0
pending (some (gathered n)) ms = suc (length ms)
pending (some (of_front n)) ms = length ms

-- The call returns, in a sender that is still in order.
pub record Runs (r : Result Sender) (removed : Bool) (total : Bytes) (most : ℕ) : Type 0 where
  pub after : Sender
  pub returns : r ≡ ok after
  pub inv : Live after total
  pub kept : after.removed ≡ removed
  pub bounded : pending after.writing after.send_list ≤ most

module _ (s : Sender) (total : Bytes) where
  write_front-Runs :
      (m : Message) (ms : List Message)
      → All IsSendable (m ∷ ms)
      → s.written ++ bytes_of (m ∷ ms) ≡ total
      → Runs (write_front m ms s) s.removed total (length (m ∷ ms))
  unfolding write_front
  write_front-Runs m ms h e = record {
    after = record s {
      send_list = m ∷ ms;
      is_sending = true;
      writing = some (of_front (get_size m));
      written = s.written ++ block_of m;
    };
    returns = rw (slice_block m h.0);
    inv = record {
      sendable = h;
      in_order = append_assoc s.written (block_of m) (bytes_of ms) ∙ e;
      agrees = refl;
    };
    kept = refl;
    bounded = omega arith;
  }

  -- the front message at least is copied
  gather_first :
      (m : Message) (ms : List Message)
      → All IsSendable (m ∷ ms)
      → get_size m ≤ 16384
      → (bytes : Bytes) × (left : List Message) × (gather (m ∷ ms) [] ≡ ok (bytes, left))
        × (bytes ++ bytes_of left ≡ bytes_of (m ∷ ms))
        × All IsSendable left
        × (length left ≤ length ms)
  unfolding gather
  gather_first m ms h small =
      let size = get_size-length m h.0 in
      let g = gather-Gathers ms (block_of m) h.1 (omega arith) in
      let wrap : (0 + get_size m) % 2 ^ 32 ≤ 16384 = omega arith in
      (
        g.bytes,
        g.left,
        rw (le→ltb network_buf_size ((0 + get_size m) % 2 ^ 32) wrap) (
            rw (le→ltb network_buf_size (0 + get_size m) (omega arith))
              (rw (slice_block m h.0) g.returns)),
        g.whole,
        g.sendable,
        g.shorter,
      )

  write_gathered-Runs :
      (m : Message) (ms : List Message)
      → All IsSendable (m ∷ ms)
      → get_size m ≤ 16384
      → s.written ++ bytes_of (m ∷ ms) ≡ total
      → Runs (write_gathered (m ∷ ms) s) s.removed total (length (m ∷ ms))
  unfolding write_gathered
  write_gathered-Runs m ms h small e =
      let (bytes, left, returns, whole, sendable, shorter) = gather_first m ms h small in
      record {
        after = record s {
          send_list = left;
          is_sending = true;
          writing = some (gathered (length bytes));
          written = s.written ++ bytes;
        };
        returns = rw returns;
        inv = record {
          sendable = sendable;
          in_order = append_assoc s.written bytes (bytes_of left) ∙ ap (◌++◌ s.written) whole ∙ e;
          agrees = refl;
        };
        kept = refl;
        bounded = omega arith;
      }

  send_queue-Runs :
      (q : List Message)
      → All IsSendable q
      → s.written ++ bytes_of q ≡ total
      → Runs (send_queue q s) s.removed total (length q)
  unfolding send_queue
  send_queue-Runs [] h e = record {
    after = record s { send_list = []; is_sending = false; writing = none };
    returns = refl;
    inv = record { sendable = tt; in_order = e; agrees = (refl, refl) };
    kept = refl;
    bounded = omega arith;
  }
  send_queue-Runs (m ∷ []) h e = write_front-Runs m [] h e
  send_queue-Runs (m ∷ n ∷ ms) h e = elim (Bool-cases (leb (get_size m) network_buf_size)) [
    | inl small ↦
        rw small (write_gathered-Runs m (n ∷ ms) h (leb→le (get_size m) network_buf_size small) e)
    | inr large ↦ rw large (write_front-Runs m (n ∷ ms) h e)
  ]

pub do_send-Runs :
    (s : Sender) (total : Bytes)
    → All IsSendable s.send_list
    → s.written ++ bytes_of s.send_list ≡ total
    → Runs (do_send s) s.removed total (length s.send_list)
unfolding do_send
do_send-Runs s total h e =
    let (same, sendable, shorter) = drop_null_lem s.send_list h in
    let r =
      send_queue-Runs s total (drop_null s.send_list) sendable (ap (◌++◌ s.written) same ∙ e) in
    record {
      after = r.after;
      returns = r.returns;
      inv = r.inv;
      kept = r.kept;
      bounded = omega (arith, r.bounded);
    }
