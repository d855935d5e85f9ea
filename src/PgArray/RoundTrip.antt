-- ===== src/PgArray/RoundTrip.antt =====
-- What is written as an array of texts is read back.
use openstreetmap_cgimap.Prelude.{
  ℕ, ◌≡◌, refl, sym, ap, ◌∙◌, true, false, List, [], ◌∷◌, ◌++◌, map, arith, ℕ-Eq, String-Eq,
}
use openstreetmap_cgimap.Prelude.Int.{ℤ-Eq}
use openstreetmap_cgimap.Types.{ObjectType-Eq, Pair-Eq}
use mathlib.Core.List.{append_assoc, append-nil}
use openstreetmap_cgimap.PgArray.{
  ArrayParser, chars_beq, escape_chars, escape, array_elements, array_text, read_char, read_chars,
  psql_array_to_vector,
}

-- The parser in the middle of an element.
abbrev in_quotes : List (List ℕ) → List ℕ → ArrayParser
in_quotes strs value = record { strs = strs; value = value; quoted_value = true; escaped = false }

-- The parser between two elements.
abbrev between : List (List ℕ) → List ℕ → ArrayParser
between strs value = record { strs = strs; value = value; quoted_value = false; escaped = false }

read_chars-escape_chars :
    (strs : List (List ℕ)) (value input rest : List ℕ)
    → read_chars (escape_chars input ++ rest) (in_quotes strs value)
      ≡ read_chars rest (in_quotes strs (value ++ input))
unfolding escape_chars read_chars read_char
read_chars-escape_chars strs value [] rest =
    ap (λ v. read_chars rest (in_quotes strs v)) (sym (append-nil value))
read_chars-escape_chars strs value (c ∷ cs) rest =
    let later = read_chars-escape_chars strs (value ++ c ∷ []) cs rest in
    let same : read_chars rest (in_quotes strs ((value ++ c ∷ []) ++ cs))
        ≡ read_chars rest (in_quotes strs (value ++ c ∷ cs)) =
      ap (λ v. read_chars rest (in_quotes strs v)) (append_assoc value (c ∷ []) cs) in
    ground (arith, later, same)

-- An element that is read whole.
read_chars-escape :
    (strs : List (List ℕ)) (input rest : List ℕ)
    → read_chars (escape input ++ rest) (between strs []) ≡ read_chars rest (between strs input)
unfolding escape read_chars read_char
read_chars-escape strs input rest =
    let closing = read_chars-escape_chars strs [] input (34 ∷ rest) in
    let assoc : (escape_chars input ++ 34 ∷ []) ++ rest ≡ escape_chars input ++ 34 ∷ rest =
      append_assoc (escape_chars input) (34 ∷ []) rest in
    ap (λ cs. read_chars cs (in_quotes strs [])) assoc ∙ closing

read_chars-array_elements :
    (strs : List (List ℕ)) (x : List ℕ) (xs : List (List ℕ))
    → read_chars (array_elements (escape x) (map escape xs)) (between strs [])
      ≡ between (strs ++ x ∷ xs) []
unfolding array_elements read_chars read_char
read_chars-array_elements strs x [] = read_chars-escape strs x (125 ∷ []) ∙ refl
read_chars-array_elements strs x (y ∷ xs) =
    let text = array_elements (escape y) (map escape xs) in
    let later = read_chars-array_elements (strs ++ x ∷ []) y xs in
    let same : between ((strs ++ x ∷ []) ++ y ∷ xs) [] ≡ between (strs ++ x ∷ y ∷ xs) [] =
      ap (λ l. between l []) (append_assoc strs (x ∷ []) (y ∷ xs)) in
    read_chars-escape strs x (44 ∷ text) ∙ (later ∙ same)

-- An array with an element in quotes is not the text "{NULL}".
quoted-chars_beq :
    (x : List ℕ) (xs : List (List ℕ)) (rest : List ℕ)
    → chars_beq (array_elements (escape x) xs) (78 ∷ rest) ≡ false
unfolding array_elements escape
quoted-chars_beq x [] rest = refl
quoted-chars_beq x (y ∷ xs) rest = refl

-- An array of at least one text that is written, with its elements escaped, is read as it was.
pub psql_array_to_vector-array_text :
    (x : List ℕ) (xs : List (List ℕ))
    → psql_array_to_vector (array_text (map escape (x ∷ xs))) ≡ x ∷ xs
unfolding psql_array_to_vector array_text
psql_array_to_vector-array_text x xs =
    let done = ap (λ (p : ArrayParser). p.strs) (read_chars-array_elements [] x xs) in
    rw (quoted-chars_beq x (map escape xs) (85 ∷ 76 ∷ 76 ∷ 125 ∷ [])) done
