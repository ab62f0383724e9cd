-- ===== src/Framing/Rest.antt =====
-- A read behind a whole header: it ends the message, or grows it.
use nicenet.Common.{
  ◌+◌, ◌-◌, ◌%◌, ◌^◌, ◌≤◌, ◌<◌, ◌≡◌, refl, arith, true, [], ◌++◌, append-nil, append_assoc, length,
  take, drop, length-append, Bytes, of_le, ok, fault, null_dereference, le→ltb, le→leb, lt→leb,
}
use nicenet.Message.{heap, slice}
use nicenet.Framing.{Session, finish, keep, msg_size, complete, append, parse_body, swap_through}
use nicenet.Framing.Pending.{splice_at, slice_at}

-- The whole rest `y` of the message has come: the bytes are copied, and then the new, null
-- `MessagePtr` is used.
pub body_completes :
    (s : Session) (u room c y rest : Bytes)
    → s.prev.write_point ≡ length u
    → of_le (take 4 (u ++ room)) ≡ length (u ++ room)
    → length (u ++ room) ≤ 32768
    → length c ≤ length u
    → length y ≡ length room
    → length (c ++ (y ++ rest)) ≤ 16384
    → parse_body s (u ++ room) (c ++ (y ++ rest)) (length c) ≡ fault null_dereference
unfolding parse_body complete swap_through
body_completes s u room c y rest wp counted most hc hy small =
    let n = length (u ++ room) in
    let len = length (c ++ (y ++ rest)) in
    let sums = length-append u room in
    let sumc = length-append c (y ++ rest) in
    let sumy = length-append y rest in
    let missing : (n + 2 ^ 32 - s.prev.write_point) % 2 ^ 32 ≡ length y = omega arith in
    let enough : n ≤ (len + s.prev.write_point + 2 ^ 32 - length c) % 2 ^ 32 = omega arith in
    rw counted (
      rw (le→ltb msg_size n most) (
        rw (le→leb n ((len + s.prev.write_point + 2 ^ 32 - length c) % 2 ^ 32) enough) (
          rw missing (
            rw (slice_at (length c) (length y) c y rest refl refl)
              (rw (splice_at s.prev.write_point u y room wp (omega arith)) refl)))))

-- A part `y` of the rest has come: it goes behind what is there.
pub body_grows :
    (s : Session) (u room c y : Bytes)
    → s.prev.write_point ≡ length u
    → of_le (take 4 (u ++ room)) ≡ length (u ++ room)
    → length (u ++ room) ≤ 32768
    → length c ≤ length u
    → length y < length room
    → length (c ++ y) ≤ 16384
    → parse_body s (u ++ room) (c ++ y) (length c)
      ≡ ok (
          finish true (
            keep
              (record s.prev {
                buff = heap ((u ++ y) ++ drop (length y) room);
                write_point = length (u ++ y);
              })
              s))
unfolding parse_body append
body_grows s u room c y wp counted most hc hy small =
    let n = length (u ++ room) in
    let len = length (c ++ y) in
    let sums = length-append u room in
    let sumc = length-append c y in
    let sumy = length-append u y in
    let taken : (len + 2 ^ 32 - length c) % 2 ^ 32 ≡ length y = omega arith in
    let moved : (s.prev.write_point + length y) % 2 ^ 32 ≡ length (u ++ y) = omega arith in
    let less : (len + s.prev.write_point + 2 ^ 32 - length c) % 2 ^ 32 < n = omega arith in
    let cut : slice (length c) (length y) (c ++ y) ≡ ok y =
      rw append-nil at (slice_at (length c) (length y) c y [] refl refl) in
    rw counted (
      rw (le→ltb msg_size n most) (
        rw (lt→leb n ((len + s.prev.write_point + 2 ^ 32 - length c) % 2 ^ 32) less) (
          rw taken (
            rw cut (
              rw (splice_at s.prev.write_point u y room wp (omega arith))
                (rw (moved, append_assoc u y (drop (length y) room))))))))
