-- ===== src/Sending/Gather.antt =====
-- What `doSend` takes from the queue.
use nicenet.Common.{
  ◌+◌, ◌%◌, ◌^◌, ◌≤◌, ◌<◌, ◌≡◌, refl, sym, ◌∙◌, arith, List, [], ◌∷◌, ◌++◌, append_assoc, ltb,
  length, take, take_all, length-append, All, Bytes, of_le, ok, Bool-cases, inl, inr, ltb→le,
  le→ltb, le→leb,
}
use nicenet.Framing.{network_buf_size}
use nicenet.Message.{Message, Buff, null, inline, heap, slice, get_size, block_of}
use nicenet.Sending.{drop_null, gather}

-- A message that was built or received: none yet, or a block whose header counts it.
abbrev pub Sendable : Buff → Type 0
Sendable null = Unit {0}
Sendable inline = ⊥
Sendable (heap b) = (of_le (take 4 b) ≡ length b) × (length b < 2 ^ 31)

abbrev pub IsSendable : Message → Type 0
IsSendable m = Sendable m.buff

abbrev pub bytes_of : List Message → Bytes
bytes_of [] = []
bytes_of (m ∷ ms) = block_of m ++ bytes_of ms

pub bytes_of-append : (ms ns : List Message) → bytes_of (ms ++ ns) ≡ bytes_of ms ++ bytes_of ns
bytes_of-append [] ns = refl
bytes_of-append (m ∷ ms) ns =
    rw (bytes_of-append ms ns) (sym (append_assoc (block_of m) (bytes_of ms) (bytes_of ns)))

-- `getSize` of such a message is the size of its block.
pub get_size-length : (m : Message) → IsSendable m → get_size m ≡ length (block_of m)
unfolding get_size
get_size-length m h = at_buff m.buff h
  where
    at_buff :
        (b : Buff)
        → Sendable b
        → get_size (record { buff = b; write_point = m.write_point; read_point = m.read_point })
          ≡ length (
              block_of
                (record { buff = b; write_point = m.write_point; read_point = m.read_point }))
    at_buff null h = refl
    at_buff inline h = absurd h
    at_buff (heap b) h = h.0

pub small_block : (m : Message) → IsSendable m → length (block_of m) < 2 ^ 31
small_block m h = at_buff m.buff h
  where
    at_buff :
        (b : Buff)
        → Sendable b
        → length
            (block_of (record { buff = b; write_point = m.write_point; read_point = m.read_point }))
          < 2 ^ 31
    at_buff null h = omega arith
    at_buff inline h = absurd h
    at_buff (heap b) h = h.1

pub slice_block : (m : Message) → IsSendable m → slice 0 (get_size m) (block_of m) ≡ ok (block_of m)
unfolding slice
slice_block m h = rw (get_size-length m h) (
    rw (le→leb (0 + length (block_of m)) (length (block_of m)) (omega arith))
      (rw (take_all (length (block_of m)) (block_of m) (omega arith))))

-- The messages without a block are left out, and nothing else.
pub drop_null_lem :
    (ms : List Message)
    → All IsSendable ms
    → (bytes_of (drop_null ms) ≡ bytes_of ms)
      × All IsSendable (drop_null ms)
      × (length (drop_null ms) ≤ length ms)
unfolding drop_null
drop_null_lem [] h = (refl, tt, omega arith)
drop_null_lem (m ∷ ms) h = ground (arith, drop_null_lem ms h.1)

-- What `gather` copies and what it leaves are the queue.
pub record Gathers (q : List Message) (data2 : Bytes) : Type 0 where
  pub bytes : Bytes
  pub left : List Message
  pub returns : gather q data2 ≡ ok (bytes, left)
  pub whole : bytes ++ bytes_of left ≡ data2 ++ bytes_of q
  pub fits : length bytes ≤ 16384
  pub sendable : All IsSendable left
  pub shorter : length left ≤ length q

pub gather-Gathers :
    (q : List Message) (data2 : Bytes) → All IsSendable q → length data2 ≤ 16384 → Gathers q data2
unfolding gather
gather-Gathers [] data2 h small = record {
  bytes = data2;
  left = [];
  returns = refl;
  whole = refl;
  fits = small;
  sendable = tt;
  shorter = omega arith;
}
gather-Gathers (m ∷ ms) data2 h small =
    elim (Bool-cases (ltb network_buf_size ((length data2 + get_size m) % 2 ^ 32))) [
      | inl full ↦ record {
        bytes = data2;
        left = m ∷ ms;
        returns = rw full;
        whole = refl;
        fits = small;
        sendable = h;
        shorter = omega arith;
      }
      | inr room ↦
          let size = get_size-length m h.0 in
          let least = ltb→le network_buf_size ((length data2 + get_size m) % 2 ^ 32) room in
          let block = small_block m h.0 in
          let fit : length data2 + get_size m ≤ 16384 = omega arith in
          let sum = length-append data2 (block_of m) in
          let g = gather-Gathers ms (data2 ++ block_of m) h.1 (omega arith) in
          record {
            bytes = g.bytes;
            left = g.left;
            returns = rw room (
                rw (le→ltb network_buf_size (length data2 + get_size m) fit)
                  (rw (slice_block m h.0) (g.returns)));
            whole = g.whole ∙ append_assoc data2 (block_of m) (bytes_of ms);
            fits = g.fits;
            sendable = g.sendable;
            shorter = omega (arith, g.shorter);
          }
    ]
