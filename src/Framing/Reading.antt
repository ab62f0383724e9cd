-- ===== src/Framing/Reading.antt =====
-- Tcp.cpp: `TcpSession::doRead`, one read after another.
use nicenet.Common.{
  ℕ, zero, suc, ◌≤◌, ◌<◌, ◌≡◌, ◌≢◌, refl, sym, ap, ◌∙◌, arith, true, false, Option, none, some,
  List, [], ◌∷◌, ◌++◌, append-nil, append_assoc, length, length-append, ◌==◌, if◌then◌else◌, All,
  Bytes, Fault,
}
use mathlib.Core.List.{map, map-append}
use nicenet.Message.{Message, null}
use nicenet.Framing.{Session, post, returned, faulted, unfinished, parse_msg}
use nicenet.Framing.Pending.{IsFrame}
use nicenet.Framing.Frames.{join, message_of, frame_first, frame_last}

-- How the reads of a session go on: the next one is waited for, the session removes itself, or the
-- program faults.
pub data Reading : Type 0 where
  waits : Session → Reading
  removes : Session → Reading
  breaks : Fault → Reading
  runs_on : Reading

-- What each read brings: an error, or at most `NETWORK_BUF_SIZE` bytes.
unfoldable pub do_read : (ℕ → ℕ) → ℕ → List (Option Bytes) → Session → Reading
unfolding parse_msg
do_read garbage fuel [] s = waits s
do_read garbage fuel (none ∷ reads) s = removes s
do_read garbage fuel (some data_ ∷ reads) s =
    let skipped = do_read garbage fuel reads s in
    if length data_ == 0 then skipped else elim (parse_msg garbage fuel s data_) [
      | returned b s' ↦ (let more = do_read garbage fuel reads s' in if b then more else removes s')
      | faulted e ↦ breaks e
      | unfinished ↦ runs_on
    ]

abbrev pub all_posted : List Bytes → Session → Session
all_posted fs s = record s { posted = s.posted ++ map message_of fs }

posted-posted :
    (fs gs : List Bytes) (s : Session) → all_posted gs (all_posted fs s) ≡ all_posted (fs ++ gs) s
posted-posted fs gs s =
    ap (λ (ms : List Message). record s { posted = ms })
      (append_assoc s.posted (map message_of fs) (map message_of gs)
        ∙ ap (◌++◌ s.posted) (sym (map-append message_of fs gs)))

-- A read that ends with a message.
whole_read :
    (garbage : ℕ → ℕ) (fuel : ℕ) (f : Bytes) (fs : List Bytes) (s : Session)
    → s.prev.buff ≡ null
    → All IsFrame (f ∷ fs)
    → length (join (f ∷ fs) []) ≤ 16384
    → length (f ∷ fs) < fuel
    → parse_msg garbage fuel s (join (f ∷ fs) []) ≡ returned true (all_posted (f ∷ fs) s)
whole_read garbage zero f fs s e hs small lt = absurd (omega arith)
whole_read garbage (suc fuel) f [] s e hs small lt = frame_last garbage fuel s f e hs.0 small
whole_read garbage (suc fuel) f (g ∷ fs) s e hs small lt =
    let rest = join (g ∷ fs) [] in
    let long = length-append g (join fs []) in
    frame_first garbage fuel s f rest e hs.0 (omega (arith, long, hs.1.0.least)) small
    ∙ whole_read garbage fuel g fs (post (message_of f) s) e hs.1
        (omega (arith, length-append f rest)) (omega arith)
    ∙ ap (returned true) (posted-posted (f ∷ []) (g ∷ fs) s)

-- Whole messages, at least one, that fit into one read and into the fuel.
pub record IsRead (fuel : ℕ) (fs : List Bytes) : Type 0 where
  pub frames : All IsFrame fs
  pub some_frame : fs ≢ []
  pub fits : length (join fs []) ≤ 16384
  pub enough : length fs < fuel

abbrev pub all_frames : List (List Bytes) → List Bytes
all_frames [] = []
all_frames (fs ∷ fss) = fs ++ all_frames fss

abbrev pub reads_of : List (List Bytes) → List (Option Bytes)
reads_of [] = []
reads_of (fs ∷ fss) = some (join fs []) ∷ reads_of fss

one_read :
    (garbage : ℕ → ℕ) (fuel : ℕ) (fs : List Bytes) (reads : List (Option Bytes)) (s : Session)
    → s.prev.buff ≡ null
    → IsRead fuel fs
    → do_read garbage fuel (some (join fs []) ∷ reads) s
      ≡ do_read garbage fuel reads (all_posted fs s)
unfolding do_read
one_read garbage fuel [] reads s e r = absurd (r.some_frame refl)
one_read garbage fuel (f ∷ fs) reads s e r =
    let long = length-append f (join fs []) in
    let more : (length (join (f ∷ fs) []) == 0) ≡ false = ground (arith, long, r.frames.0.least) in
    rw more (rw (whole_read garbage fuel f fs s e r.frames r.fits r.enough, do_read))

-- Reads that each end with a message, have at least one and at most `NETWORK_BUF_SIZE` bytes: from
-- a session with nothing pending, all the messages are posted in their order, nothing is
-- pending, and the session waits for the next read.
pub do_read-posts :
    (garbage : ℕ → ℕ) (fuel : ℕ) (fss : List (List Bytes)) (s : Session)
    → s.prev.buff ≡ null
    → All (IsRead fuel) fss
    → do_read garbage fuel (reads_of fss) s ≡ waits (all_posted (all_frames fss) s)
unfolding do_read
do_read-posts garbage fuel [] s e rs =
    ap (λ (ms : List Message). waits (record s { posted = ms })) (sym (append-nil s.posted))
do_read-posts garbage fuel (fs ∷ fss) s e rs =
    one_read garbage fuel fs (reads_of fss) s e rs.0
    ∙ do_read-posts garbage fuel fss (all_posted fs s) e rs.1
    ∙ ap (λ (x : Session). waits x) (posted-posted fs (all_frames fss) s)
