-- ===== src/Prelude/Text.antt =====
-- Text as a list of codes, where the program walks its characters.
use Prim.Native.Char.{code}
use openstreetmap_cgimap.Prelude.{ℕ, String, List, [], ◌∷◌}

-- The code points of a text: its bytes, if it is ASCII. `String` has its own `[]` and `∷`.
abbrev pub codes : String → List ℕ
codes String.[] = []
codes (String.◌∷◌ c s) = code c ∷ codes s
