-- ===== src/Http/Replies/Examples.antt =====
-- The theorem on responses at two of them, the first sent in two parts and the second in part before an error.
use nicenet.Common.{true, false, [], ◌∷◌}
use nicenet.Common.Text.{codes}
use nicenet.Http.Replies.Stream.{Keeps, responds, writes, run, responses, new_replies, run-Stream}

run-Stream_example :
    Keeps
      (run
        (responds (codes "first")
          ∷ responds (codes "second")
          ∷ writes false 2
          ∷ writes false 3
          ∷ writes true 4
          ∷ [])
        new_replies)
      (responses (
        responds (codes "first")
        ∷ responds (codes "second")
        ∷ writes false 2
        ∷ writes false 3
        ∷ writes true 4
        ∷ []))
run-Stream_example = run-Stream (
    responds (codes "first")
    ∷ responds (codes "second")
    ∷ writes false 2
    ∷ writes false 3
    ∷ writes true 4
    ∷ [])
