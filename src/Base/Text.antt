-- ===== src/Base/Text.antt =====
-- Texts as lists of character codes, and decimal numbers.
use Prim.Native.Char.{code}
use Prim.Native.String.{String}
use Prim.Native.Nat.{ℕ, zero, suc, ◌+◌, ◌/◌, ◌%◌}
use mathlib.Core.List.{List, [], ◌∷◌}
use osal.Base.Tests.{ltb, if◌then◌else◌}

abbrev pub codes : String → List ℕ
codes String.[] = []
codes (String.◌∷◌ c s) = code c ∷ codes s

-- The decimal digits of `n` before `acc`, at most as many as the fuel.
unfoldable pub decimal : (fuel n : ℕ) → List ℕ → List ℕ
decimal zero n acc = acc
decimal (suc f) n acc =
    let acc' = (b'0' + n % 10) ∷ acc in
    let rest = decimal f (n / 10) acc' in if ltb n 10 then acc' else rest
