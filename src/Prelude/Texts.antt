-- ===== src/Prelude/Texts.antt =====
-- Texts as sequences of code points.
use Prim.Native.Nat.{ℕ}
use Prim.Native.String.{String}
use Prim.Native.Char.{code}
use mathlib.Core.Bool.{Bool}
use mathlib.Core.List.{List, [], ◌∷◌}
use mailcleanup.Prelude.Tests.{ltb}
use mailcleanup.Prelude.Lists.{all}

abbrev pub codes : String → List ℕ
codes String.[] = []
codes (String.◌∷◌ c s) = code c ∷ codes s

-- `s.isascii()`
unfoldable pub is_ascii : String → Bool
unfolding all
is_ascii s = all (λ c. ltb c 128) (codes s)
