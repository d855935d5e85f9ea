-- ===== src/OsmObject.antt =====
-- include/cgimap/api06/changeset_upload/osmobject.hpp: what nodes, ways and relations share.
pub mod Node
pub mod Way
pub mod Relation
mod Tests
use openstreetmap_cgimap.Prelude.{
  ℕ, zero, suc, ◌+◌, ◌-◌, ◌*◌, ◌/◌, ◌%◌, ◌^◌, ◌≤◌, ◌<◌, String, ◌≡◌, refl, sym, ap, ap₂, ◌∙◌, ◌≢◌,
  ◌↔◌, ◌⊎◌, inl, inr, Bool, true, false, not, ◌&&◌, ◌||◌, Option, none, some, List, [], ◌∷◌, ◌++◌,
  map, arith, ltb, leb, eqb, if◌then◌else◌, eqb_iff, Eq, ◌==◌, ==_refl, ℕ-Eq, String-Eq, Bool-cases,
  Option-cases, length, get_elem?, length-append, All, Any, List-cases, get_or, to_list,
  get_elem?-append, get_elem?-none, get_or-append, get_or_default,
}
use openstreetmap_cgimap.Prelude.Int.{
  ℤ, pos, negsuc, pos_part, neg_part, ◌+ℤ◌, ◌-ℤ◌, ◌*ℤ◌, ◌≤ℤ◌, ltb_ℤ, eqb_ℤ, eqb_ℤ_iff, ℤ-Eq,
  int_laws, IsInt64, to_uint64, to_int64, to_int64-to_uint64,
}
use openstreetmap_cgimap.StdMap.{
  StdMap, find, contains, insert, assign, insert_all, find-insert, find-assign, find-insert_all,
  find_first, find_first_key, is_some, find_first_iff,
}
use openstreetmap_cgimap.Types.{
  Error, bad_request, payload_error, not_found, conflict, gone, precondition_failed, server_error,
  runtime_error, Result, ok, err, ◌>>=◌, ◌>>◌, guard, >>=-eq-ok, ok-injective, Result-cases, is_ok,
  Operation, op_undefined, op_create, op_modify, op_delete, ObjectType, node, way, relation,
  ObjectKey, EditionKey, ObjectType-Eq, Pair-Eq,
}
use openstreetmap_cgimap.Prelude.Text.{codes}
use openstreetmap_cgimap.Number.{from_chars_int64}
use openstreetmap_cgimap.Double.{FromChars, parsed, invalid_argument, result_out_of_range}

-- The settings that limit an object.
pub record Limits : Type 0 where
  pub element_max_tags : Option ℕ
  pub way_max_nodes : ℕ
  pub relation_max_members : Option ℕ

-- class OSMObject. The map of tags holds every key once, so its size is the length of the list.
pub record OsmObject : Type 0 where
  pub m_changeset : Option ℤ
  pub m_id : Option ℤ
  pub m_version : Option ℕ
  pub m_tags : StdMap String String

abbrev pub new_object : OsmObject
new_object = record { m_changeset = none; m_id = none; m_version = none; m_tags = [] }

-- `unicode_strlen`; a text of the model is always well formed.
abbrev pub unicode_strlen : String → ℕ
unicode_strlen s = length (codes s)

unfoldable pub set_changeset : ℤ → OsmObject → Result OsmObject
set_changeset changeset o =
    if ltb_ℤ (pos 0) changeset
    then ok (record o { m_changeset = some changeset })
    else err (payload_error "Changeset must be a positive number")

-- The version is kept as a `uint32_t`.
unfoldable pub set_version : ℤ → OsmObject → Result OsmObject
unfolding to_uint64
set_version version o =
    if ltb_ℤ version (pos 0)
    then err (payload_error "Version may not be negative")
    else ok (record o { m_version = some (to_uint64 version % 2 ^ 32) })

unfoldable pub set_id : ℤ → OsmObject → Result OsmObject
set_id id o =
    if id == pos 0
    then err (payload_error "Id must be different from 0")
    else ok (record o { m_id = some id })

-- The setters that read a text.
abbrev pub from_text {ℓ κ} :
    {A : Type ℓ} {B : Type κ} → Error → Error → (A → Result B) → FromChars A → Result B
from_text not_numeric too_large set (parsed a) = set a
from_text not_numeric too_large set invalid_argument = err not_numeric
from_text not_numeric too_large set result_out_of_range = err too_large

unfoldable pub set_changeset_text : String → OsmObject → Result OsmObject
unfolding from_chars_int64 set_changeset
set_changeset_text text o =
    from_text (payload_error "Changeset is not numeric")
      (payload_error "Changeset number is too large") (λ z. set_changeset z o)
      (from_chars_int64 (codes text))

unfoldable pub set_version_text : String → OsmObject → Result OsmObject
unfolding from_chars_int64 set_version
set_version_text text o =
    from_text (payload_error "Version is not numeric") (payload_error "Version value is too large")
      (λ z. set_version z o) (from_chars_int64 (codes text))

unfoldable pub set_id_text : String → OsmObject → Result OsmObject
unfolding from_chars_int64 set_id
set_id_text text o =
    from_text (payload_error "Id is not numeric") (payload_error "Id number is too large")
      (λ z. set_id z o) (from_chars_int64 (codes text))

unfoldable pub add_tag : String → String → OsmObject → Result OsmObject
unfolding insert
add_tag key value o = do
  guard (not (key == "")) (payload_error "Key may not be empty in {}")
  guard (leb (unicode_strlen key) 255)
      (payload_error "Key has more than 255 unicode characters in {}")
  guard (leb (unicode_strlen value) 255)
      (payload_error "Value has more than 255 unicode characters in {}")
  let (tags, inserted) = insert key value o.m_tags
  guard inserted (payload_error "{} has duplicate tags with key {}")
  ok (record o { m_tags = tags })

unfoldable pub add_tags : List (String × String) → OsmObject → Result OsmObject
unfolding add_tag
add_tags [] o = ok o
add_tags ((key, value) ∷ tags) o = add_tag key value o >>= add_tags tags

-- `max && size > *max` is not the case.
abbrev pub within : Option ℕ → ℕ → Bool
within none n = true
within (some limit) n = leb n limit

abbrev pub is_create : Operation → Bool
is_create op_create = true
is_create _ = false

abbrev pub is_delete : Operation → Bool
is_delete op_delete = true
is_delete _ = false

abbrev pub has_all_fields : OsmObject → Bool
has_all_fields o = is_some o.m_changeset && is_some o.m_id && is_some o.m_version

-- `m_id && id() >= 0`
abbrev pub has_nonnegative_id : OsmObject → Bool
has_nonnegative_id o = elim o.m_id [ none ↦ false | some i ↦ not (ltb_ℤ i (pos 0)) ]

unfoldable pub is_valid : Limits → Operation → OsmObject → Result Bool
is_valid limits op o = do
  guard (is_some o.m_changeset)
      (payload_error "You need to supply a changeset to be able to make a change")
  guard (within limits.element_max_tags (length o.m_tags))
      (payload_error "OSM element exceeds limit of {} tags")
  guard (not (has_all_fields o && is_create op && has_nonnegative_id o))
      (payload_error "Placeholder IDs must be negative for created elements.")
  ok (has_all_fields o)

-- There is no limit, or the number is not above it.
abbrev pub IsWithin : Option ℕ → ℕ → Type 0
IsWithin none n = Unit {0}
IsWithin (some limit) n = n ≤ limit

pub within_iff : (most : Option ℕ) (n : ℕ) → (within most n ≡ true) ↔ IsWithin most n
within_iff none n = ground arith
within_iff (some limit) n = ground arith

-- An id below 0.
abbrev pub IsNegative : Option ℤ → Type 0
IsNegative none = ⊥
IsNegative (some (pos n)) = ⊥
IsNegative (some (negsuc n)) = Unit {0}

-- A valid object as the operations on the database need it.
pub record IsValidObject (limits : Limits) (op : Operation) (o : OsmObject) : Type 0 where
  pub changeset_set : is_some o.m_changeset ≡ true
  pub id_set : is_some o.m_id ≡ true
  pub version_set : is_some o.m_version ≡ true
  pub tags_within : IsWithin limits.element_max_tags (length o.m_tags)
  pub placeholder : op ≡ op_create → IsNegative o.m_id

-- The test for a placeholder of `is_valid`.
placeholder_iff :
    (op : Operation) (o : OsmObject)
    → is_some o.m_id ≡ true
    → ((is_create op && has_nonnegative_id o) ≡ false) ↔ (op ≡ op_create → IsNegative o.m_id)
placeholder_iff op_create o h = (λ e same. ground arith, λ f. ground (arith, f refl))
placeholder_iff op_undefined o h = (λ e same. cc, λ f. refl)
placeholder_iff op_modify o h = (λ e same. cc, λ f. refl)
placeholder_iff op_delete o h = (λ e same. cc, λ f. refl)

-- `is_valid` returns true exactly for the objects with a changeset, an id and a version, no more
-- tags than the limit, where there is one, and, where one is to be created, a negative id.
pub is_valid_iff :
    (limits : Limits) (op : Operation) (o : OsmObject)
    → (is_valid limits op o ≡ ok true) ↔ IsValidObject limits op o
unfolding is_valid
is_valid_iff limits op o =
    let few = within_iff limits.element_max_tags (length o.m_tags) in
    (
      λ h.
          let id : is_some o.m_id ≡ true = ground arith in
          record {
            changeset_set = ground arith;
            id_set = id;
            version_set = ground arith;
            tags_within = few.0 (ground arith);
            placeholder = (placeholder_iff op o id).0 (ground arith);
          },
      λ v.
          let few_enough = few.1 v.tags_within in
          let new = (placeholder_iff op o v.id_set).1 v.placeholder in
          ground (arith, v.changeset_set, v.id_set, v.version_set),
    )
