-- ===== src/PgArray.antt =====
-- PostgreSQL arrays of texts: include/cgimap/util.hpp writes the elements, and
-- src/backend/apidb/utils.cpp reads them. A text is the list of its characters.
pub mod RoundTrip
mod Tests
use openstreetmap_cgimap.Prelude.{
  ℕ, zero, suc, ◌+◌, ◌-◌, ◌*◌, ◌/◌, ◌%◌, ◌^◌, ◌≤◌, ◌<◌, String, ◌≡◌, refl, sym, ap, ap₂, ◌∙◌, ◌≢◌,
  ◌↔◌, ◌⊎◌, inl, inr, Bool, true, false, not, ◌&&◌, ◌||◌, Option, none, some, List, [], ◌∷◌, ◌++◌,
  map, arith, ltb, leb, eqb, if◌then◌else◌, eqb_iff, Eq, ◌==◌, ==_refl, ℕ-Eq, String-Eq, Bool-cases,
  Option-cases, length, get_elem?, length-append, All, Any, List-cases, get_or, to_list,
  get_elem?-append, get_elem?-none, get_or-append, get_or_default,
}
use openstreetmap_cgimap.Prelude.Int.{
  ℤ, pos, negsuc, pos_part, neg_part, ◌+ℤ◌, ◌-ℤ◌, ◌*ℤ◌, ◌≤ℤ◌, ltb_ℤ, eqb_ℤ, eqb_ℤ_iff, ℤ-Eq,
  int_laws, IsInt64, to_uint64, to_int64, to_int64-to_uint64,
}
use openstreetmap_cgimap.StdMap.{
  StdMap, find, contains, insert, assign, insert_all, find-insert, find-assign, find-insert_all,
  find_first, find_first_key, is_some, find_first_iff,
}
use openstreetmap_cgimap.Types.{
  Error, bad_request, payload_error, not_found, conflict, gone, precondition_failed, server_error,
  runtime_error, assertion_failed, Result, ok, err, ◌>>=◌, ◌>>◌, guard, >>=-eq-ok, ok-injective,
  Result-cases, >>=-assoc, >>=-ok, >>=-cong, is_ok, Operation, op_undefined, op_create, op_modify,
  op_delete, ObjectType, node, way, relation, ObjectKey, EditionKey, ObjectType-Eq, Pair-Eq,
}
use openstreetmap_cgimap.Prelude.Text.{codes}

-- '"' and '\\' are written with a backslash before them.
unfoldable pub escape_chars : List ℕ → List ℕ
escape_chars [] = []
escape_chars (c ∷ cs) =
    let rest = escape_chars cs in if eqb c 34 || eqb c 92 then 92 ∷ c ∷ rest else c ∷ rest

-- An element of an array, in quotes.
unfoldable pub escape : List ℕ → List ℕ
unfolding escape_chars
escape input = 34 ∷ escape_chars input ++ 34 ∷ []

-- The elements with commas between them, and the brace at the end.
unfoldable pub array_elements : List ℕ → List (List ℕ) → List ℕ
array_elements x [] = x ++ 125 ∷ []
array_elements x (y ∷ xs) = x ++ 44 ∷ array_elements y xs

-- The variables of the loop of `psql_array_to_vector`.
pub record ArrayParser : Type 0 where
  pub strs : List (List ℕ)
  pub value : List ℕ
  pub quoted_value : Bool
  pub escaped : Bool

abbrev pub add_char : ℕ → ArrayParser → ArrayParser
add_char c p = record p { value = p.value ++ c ∷ [] }

abbrev pub write_value : ArrayParser → ArrayParser
write_value p = record p { strs = p.strs ++ p.value ∷ []; value = [] }

-- The body of the loop.
unfoldable pub read_char : ℕ → ArrayParser → ArrayParser
read_char c p =
    if eqb c 44
    then (if p.quoted_value then add_char c p else write_value p)
    else if eqb c 34
    then (if p.escaped
        then record (add_char c p) { escaped = false }
        else record p { quoted_value = not p.quoted_value })
    else if eqb c 92
    then (if p.escaped
        then record (add_char c p) { escaped = false }
        else record p { escaped = true })
    else if eqb c 125
    then (if p.quoted_value then add_char c p else write_value p)
    else add_char c p

unfoldable pub read_chars : List ℕ → ArrayParser → ArrayParser
unfolding read_char
read_chars [] p = p
read_chars (c ∷ cs) p = read_chars cs (read_char c p)

abbrev pub new_array_parser : ArrayParser
new_array_parser = record { strs = []; value = []; quoted_value = false; escaped = false }

abbrev pub chars_beq : List ℕ → List ℕ → Bool
chars_beq [] [] = true
chars_beq (a ∷ as1) (b ∷ bs) = eqb a b && chars_beq as1 bs
chars_beq _ _ = false

-- The loop begins after the first character.
unfoldable pub psql_array_to_vector : List ℕ → List (List ℕ)
unfolding read_chars
psql_array_to_vector [] = []
psql_array_to_vector (c ∷ cs) =
    if chars_beq (c ∷ cs) (codes "{NULL}")
    then []
    else (let last = read_chars cs new_array_parser in last.strs)

-- The text of an array: `array_string_traits::into_buf`, for elements that are escaped.
unfoldable pub array_text : List (List ℕ) → List ℕ
unfolding array_elements
array_text [] = 123 ∷ 125 ∷ []
array_text (x ∷ xs) = 123 ∷ array_elements x xs
