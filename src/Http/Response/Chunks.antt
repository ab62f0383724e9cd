-- ===== src/Http/Response/Chunks.antt =====
-- `parse` of a text, one byte at a time.
use nicenet.Common.{ℕ, ◌≡◌, ◌∷◌, Bytes}
use nicenet.Http.Response.Types.{Parsing, Advance, goes, completed, refused, raised}
use nicenet.Http.Response.Machine.{
  Outcome, step_in, parsing_completed, parsing_error, parsing_raised, consume,
}

-- What becomes of the rest of the text after one byte.
abbrev pub after : Advance → Bytes → Outcome
after (goes m) cs = consume m cs
after (completed m) cs = parsing_completed m
after (refused m) cs = parsing_error m
after (raised e) cs = parsing_raised e

pub consume-after :
    (m : Parsing) (c : ℕ) (cs : Bytes) (a : Advance)
    → step_in m.state c m ≡ a
    → consume m (c ∷ cs) ≡ after a cs
unfolding consume
consume-after m c cs (goes m') e = rw (e, consume)
consume-after m c cs (completed m') e = rw (e, consume)
consume-after m c cs (refused m') e = rw (e, consume)
consume-after m c cs (raised x) e = rw (e, consume)
