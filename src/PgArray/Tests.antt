-- ===== src/PgArray/Tests.antt =====
-- Arrays of texts at concrete inputs.
use openstreetmap_cgimap.Prelude.{◌≡◌, refl, [], ◌∷◌, map, ℕ-Eq, String-Eq}
use openstreetmap_cgimap.Prelude.Int.{ℤ-Eq}
use openstreetmap_cgimap.Types.{ObjectType-Eq, Pair-Eq}
use openstreetmap_cgimap.Prelude.Text.{codes}
use openstreetmap_cgimap.PgArray.{escape, array_text, psql_array_to_vector}
use openstreetmap_cgimap.PgArray.RoundTrip.{psql_array_to_vector-array_text}

written : array_text (map escape (codes "a\"b" ∷ codes "{}" ∷ [])) ≡ codes "{\"a\\\"b\",\"{}\"}"
unfolding array_text escape
written = refl

psql_array_to_vector-array_text_example :
    psql_array_to_vector (array_text (map escape (codes "a\"b" ∷ codes "{}" ∷ [])))
    ≡ codes "a\"b" ∷ codes "{}" ∷ []
psql_array_to_vector-array_text_example =
    psql_array_to_vector-array_text (codes "a\"b") (codes "{}" ∷ [])

-- The text of an empty array is read as one empty text.
empty_array : psql_array_to_vector (codes "{}") ≡ [] ∷ []
unfolding psql_array_to_vector
empty_array = refl
