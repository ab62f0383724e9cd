-- ===== src/Common/Text.antt =====
-- String literals as bytes, and their equality.
use Prim.Native.Char.{code}
use Prim.Native.String.{String}
use nicenet.Common.Tests.{◌==◌}
use nicenet.Common.Words.{Bytes}
use mathlib.Core.Bool.{Bool, true, false, ◌&&◌}
use mathlib.Core.List.{[], ◌∷◌}

-- every literal is ASCII
abbrev pub codes : String → Bytes
codes String.[] = []
codes (String.◌∷◌ c s) = code c ∷ codes s

unfoldable pub bytes_eq : Bytes → Bytes → Bool
bytes_eq [] [] = true
bytes_eq (x ∷ xs) (y ∷ ys) = x == y && bytes_eq xs ys
bytes_eq _ _ = false
