-- ===== src/Text/Literal.antt =====
-- Text literals as lists of code points.
use Prim.Native.Char.{code}
use adviser_ai_constructor.Prelude.{ℕ, List, [], ◌∷◌, String}

abbrev pub codes : String → List ℕ
codes String.[] = []
codes (String.◌∷◌ c s) = code c ∷ codes s
