-- ===== src/Framing/Frames.antt =====
-- A read that starts at a message.
use nicenet.Common.{
  Bool, Fault, fault, ℕ, zero, suc, ◌≤◌, ◌<◌, ◌≡◌, ◌≢◌, refl, sym, ap, ◌∙◌, arith, true, List, [],
  ◌∷◌, ◌++◌, append-nil, append_assoc, length, length-append, All, Bytes, ok, le→ltb, lt→ltb,
}
use mathlib.Core.List.{map}
use nicenet.Message.{Message, null}
use nicenet.Message.Read.{reader}
use nicenet.Framing.{
  Session, finish, again, post, network_buf_size, parse_fresh, parse_at, parse_step, returned,
  faulted, parse_msg,
}
use nicenet.Framing.Pending.{IsFrame, IsFront, Pending, nothing, fresh_front, fresh_frame}

-- The message that a handler gets for the bytes `f`, its read offset behind the head.
abbrev pub message_of : Bytes → Message
message_of f = reader 6 f 6

abbrev pub join : List Bytes → Bytes → Bytes
join [] t = t
join (f ∷ fs) t = f ++ join fs t

pub parse_step-null :
    (garbage : ℕ → ℕ) (s : Session) (data_ : Bytes)
    → s.prev.buff ≡ null
    → length data_ ≤ 16384
    → parse_step garbage s data_ ≡ parse_fresh garbage s data_
unfolding parse_step parse_at
parse_step-null garbage s data_ e h =
    rw (le→ltb network_buf_size (length data_) h) (rw (e, parse_at))

-- One call of the loop.
module _ (garbage : ℕ → ℕ) (fuel : ℕ) (s : Session) (data_ : Bytes) where
  pub parse_msg_finish :
      {b : Bool} {s' : Session}
      → parse_step garbage s data_ ≡ ok (finish b s')
      → parse_msg garbage (suc fuel) s data_ ≡ returned b s'
  unfolding parse_msg
  parse_msg_finish e = rw (e, parse_msg)

  pub parse_msg_again :
      {s' : Session} {rest : Bytes}
      → parse_step garbage s data_ ≡ ok (again s' rest)
      → parse_msg garbage (suc fuel) s data_ ≡ parse_msg garbage fuel s' rest
  unfolding parse_msg
  parse_msg_again e = rw (e, parse_msg)

  pub parse_msg_fault :
      {x : Fault}
      → parse_step garbage s data_ ≡ fault x
      → parse_msg garbage (suc fuel) s data_ ≡ faulted x
  unfolding parse_msg
  parse_msg_fault e = rw (e, parse_msg)

-- A message in front of other bytes: it is posted, and the loop goes on behind it.
pub frame_first :
    (garbage : ℕ → ℕ) (fuel : ℕ) (s : Session) (f rest : Bytes)
    → s.prev.buff ≡ null
    → IsFrame f
    → 0 < length rest
    → length (f ++ rest) ≤ 16384
    → parse_msg garbage (suc fuel) s (f ++ rest)
      ≡ parse_msg garbage fuel (post (message_of f) s) rest
frame_first garbage fuel s f rest e h more small = parse_msg_again garbage fuel s (f ++ rest) (
    parse_step-null garbage s (f ++ rest) e small
    ∙ fresh_frame garbage s f rest h
    ∙ rw (lt→ltb 0 (length rest) more))

pub frame_last :
    (garbage : ℕ → ℕ) (fuel : ℕ) (s : Session) (f : Bytes)
    → s.prev.buff ≡ null
    → IsFrame f
    → length (f ++ []) ≤ 16384
    → parse_msg garbage (suc fuel) s (f ++ []) ≡ returned true (post (message_of f) s)
frame_last garbage fuel s f e h small =
    parse_msg_finish garbage fuel s (f ++ [])
      (parse_step-null garbage s (f ++ []) e small ∙ fresh_frame garbage s f [] h)

-- The read `data_` posts the messages `fs` and leaves the front `t`.
pub record Cuts (garbage : ℕ → ℕ) (fuel : ℕ) (s : Session) (data_ : Bytes) (fs : List Bytes)
    (t : Bytes) : Type 0 where
  pub after : Session
  pub returns : parse_msg garbage fuel s data_ ≡ returned true after
  pub posts : after.posted ≡ s.posted ++ map message_of fs
  pub keeps : Pending after.prev t

Cuts-first :
    (garbage : ℕ → ℕ) (fuel : ℕ) (s : Session) (f rest : Bytes) (fs : List Bytes) (t : Bytes)
    → s.prev.buff ≡ null
    → IsFrame f
    → 0 < length rest
    → length (f ++ rest) ≤ 16384
    → Cuts garbage fuel (post (message_of f) s) rest fs t
    → Cuts garbage (suc fuel) s (f ++ rest) (f ∷ fs) t
Cuts-first garbage fuel s f rest fs t e h more small c = record {
  after = c.after;
  returns = frame_first garbage fuel s f rest e h more small ∙ c.returns;
  posts = c.posts ∙ append_assoc s.posted (message_of f ∷ []) (map message_of fs);
  keeps = c.keeps;
}

-- From a session with nothing pending, a read of at most `NETWORK_BUF_SIZE` bytes that consists
-- of whole messages `fs` and the front `t` of another (one of them not empty) returns true, posts
-- exactly the messages `fs` in order, and keeps exactly `t`; a call for each message and one more
-- are enough.
pub parse_msg-join :
    (garbage : ℕ → ℕ) (fs : List Bytes) (t : Bytes) (fuel : ℕ) (s : Session)
    → s.prev.buff ≡ null
    → All IsFrame fs
    → IsFront t
    → join fs t ≢ []
    → length (join fs t) ≤ 16384
    → length fs < fuel
    → Cuts garbage fuel s (join fs t) fs t
parse_msg-join garbage fs t zero s e hs ht ne small lt = absurd (omega arith)
parse_msg-join garbage [] t (suc fuel) s e hs ht ne small lt =
    let (s', step, posted, p) = fresh_front garbage s t ht in
    record {
      after = s';
      returns = parse_msg_finish garbage fuel s t (parse_step-null garbage s t e small ∙ step);
      posts = posted ∙ sym (append-nil s.posted);
      keeps = p;
    }
parse_msg-join garbage (f ∷ []) [] (suc fuel) s e hs ht ne small lt = record {
  after = post (message_of f) s;
  returns = frame_last garbage fuel s f e hs.0 small;
  posts = refl;
  keeps = nothing e refl;
}
parse_msg-join garbage (f ∷ []) (x ∷ t) (suc fuel) s e hs ht ne small lt =
    Cuts-first garbage fuel s f (x ∷ t) [] (x ∷ t) e hs.0 (omega arith) small (
      parse_msg-join garbage [] (x ∷ t) fuel (post (message_of f) s) e tt ht (λ p. cc)
        (omega (arith, length-append f (x ∷ t))) (omega arith))
parse_msg-join garbage (f ∷ g ∷ fs) t (suc fuel) s e hs ht ne small lt =
    let rest = join (g ∷ fs) t in
    let some_bytes : 0 < length rest = omega (arith, hs.1.0.least, length-append g (join fs t)) in
    Cuts-first garbage fuel s f rest (g ∷ fs) t e hs.0 some_bytes small (
      parse_msg-join garbage (g ∷ fs) t fuel (post (message_of f) s) e hs.1 ht
        (λ p. absurd (omega (arith, ap length p))) (omega (arith, length-append f rest))
        (omega arith))
