-- ===== src/OsmObject/Relation.antt =====
-- include/cgimap/api06/changeset_upload/relation.hpp, and the comparison of include/cgimap/util.hpp
-- that it uses.
use openstreetmap_cgimap.OsmObject.{within_iff, IsWithin, is_delete, is_valid_iff, IsValidObject}
use openstreetmap_cgimap.Prelude.{refl, suc, ◌≤◌, ◌≢◌, ap, ◌⊎◌, ◌↔◌, ◌||◌}
use openstreetmap_cgimap.Prelude.{
  ℕ, ◌+◌, ◌-◌, String, ◌≡◌, Bool, true, false, ◌&&◌, ◌||◌, Option, none, some, List, [], ◌∷◌, ◌++◌,
  arith, leb, eqb, if◌then◌else◌, ◌==◌, ℕ-Eq, String-Eq, length, Any,
}
use openstreetmap_cgimap.Prelude.Int.{ℤ, pos, ℤ-Eq}
use openstreetmap_cgimap.StdMap.{is_some}
use openstreetmap_cgimap.Types.{
  bad_request, payload_error, Result, ok, err, ◌>>=◌, ◌>>◌, guard, Operation, op_delete,
  ObjectType-Eq, Pair-Eq,
}
use openstreetmap_cgimap.Prelude.Text.{codes}
use openstreetmap_cgimap.Number.{from_chars_int64}
use openstreetmap_cgimap.OsmObject.{
  Limits, OsmObject, new_object, set_id_text, set_changeset_text, set_version_text, add_tag,
  from_text, within, unicode_strlen, is_valid_iff, IsValidObject,
}
use openstreetmap_cgimap.OsmObject

abbrev pub tolower_ascii : ℕ → ℕ
tolower_ascii c = if leb b'A' c && leb c b'Z' then c + (b'a' - b'A') else c

abbrev pub ichar_equals : ℕ → ℕ → Bool
ichar_equals a b = eqb a b || eqb (tolower_ascii a) (tolower_ascii b)

unfoldable pub equal_codes : List ℕ → List ℕ → Bool
equal_codes [] [] = true
equal_codes [] (b ∷ ys) = false
equal_codes (a ∷ xs) [] = false
equal_codes (a ∷ xs) (b ∷ ys) = ichar_equals a b && equal_codes xs ys

-- Case insensitive string comparison
abbrev pub iequals : String → String → Bool
unfolding equal_codes
iequals a b = equal_codes (codes a) (codes b)

-- class RelationMember
pub record RelationMember : Type 0 where
  pub m_role : String
  pub m_ref : Option ℤ
  pub m_type : Option String

abbrev pub new_member : RelationMember
new_member = record { m_role = ""; m_ref = none; m_type = none }

unfoldable pub set_type : String → RelationMember → Result RelationMember
unfolding equal_codes
set_type type m =
    if iequals type "Node"
    then ok (record m { m_type = some "Node" })
    else (if iequals type "Way"
        then ok (record m { m_type = some "Way" })
        else (if iequals type "Relation"
            then ok (record m { m_type = some "Relation" })
            else err (payload_error "Invalid type {} in member relation")))

-- The same letter in either case, or the same character.
abbrev pub AreSameLetter : ℕ → ℕ → Type 0
AreSameLetter a b =
    (a ≡ b) ⊎ (((b'A' ≤ a) × (a ≤ b'Z') × (b ≡ a + 32)) ⊎ ((b'A' ≤ b) × (b ≤ b'Z') × (a ≡ b + 32)))

-- The same text up to the case of its letters.
abbrev pub AreSameText : List ℕ → List ℕ → Type 0
AreSameText [] [] = Unit {0}
AreSameText (a ∷ xs) (b ∷ ys) = AreSameLetter a b × AreSameText xs ys
AreSameText _ _ = ⊥

ichar_equals_iff : (a b : ℕ) → (ichar_equals a b ≡ true) ↔ AreSameLetter a b
ichar_equals_iff a b = ground arith

pub equal_codes_iff : (xs ys : List ℕ) → (equal_codes xs ys ≡ true) ↔ AreSameText xs ys
unfolding equal_codes
equal_codes_iff [] [] = ground arith
equal_codes_iff [] (b ∷ ys) = ground arith
equal_codes_iff (a ∷ xs) [] = ground arith
equal_codes_iff (a ∷ xs) (b ∷ ys) = ground (arith, ichar_equals_iff a b, equal_codes_iff xs ys)

length-AreSameText : (xs ys : List ℕ) → AreSameText xs ys → length xs ≡ length ys
length-AreSameText [] [] h = refl
length-AreSameText [] (b ∷ ys) h = absurd h
length-AreSameText (a ∷ xs) [] h = absurd h
length-AreSameText (a ∷ xs) (b ∷ ys) h = ap suc (length-AreSameText xs ys h.1)

-- A type of a member is taken exactly when it is Node, Way or Relation up to the case of its
-- letters; it is kept in that spelling, and nothing else of the member changes.
pub set_type_lem :
    (type : String) (m m' : RelationMember)
    → (set_type type m ≡ ok m')
      ↔ Any
          (λ s. (m' ≡ record m { m_type = some s }) × AreSameText (codes type) (codes s))
          ("Node" ∷ "Way" ∷ "Relation" ∷ [])
unfolding set_type
set_type_lem type m m' =
    let node_lem = equal_codes_iff (codes type) (codes "Node") in
    let way_lem = equal_codes_iff (codes type) (codes "Way") in
    let relation_lem = equal_codes_iff (codes type) (codes "Relation") in
    let node_length = length-AreSameText (codes type) (codes "Node") in
    let way_length = length-AreSameText (codes type) (codes "Way") in
    let relation_length = length-AreSameText (codes type) (codes "Relation") in
    ground (arith, node_lem, way_lem, relation_lem, node_length, way_length, relation_length)

unfoldable pub set_role : String → RelationMember → Result RelationMember
set_role role m =
    if leb (unicode_strlen role) 255
    then ok (record m { m_role = role })
    else err (payload_error "Relation Role has more than 255 unicode characters")

unfoldable pub set_ref : ℤ → RelationMember → Result RelationMember
set_ref ref m =
    if ref == pos 0
    then err (payload_error "Relation member 'ref' attribute may not be 0")
    else ok (record m { m_ref = some ref })

unfoldable pub set_ref_text : String → RelationMember → Result RelationMember
unfolding from_chars_int64 set_ref
set_ref_text ref m =
    from_text (payload_error "Relation member 'ref' attribute is not numeric")
      (payload_error "Relation member 'ref' attribute value is too large") (λ z. set_ref z m)
      (from_chars_int64 (codes ref))

unfoldable pub member_is_valid : RelationMember → Result Bool
member_is_valid m = do
  guard (is_some m.m_type) (payload_error "Missing 'type' attribute in Relation member")
  guard (is_some m.m_ref) (payload_error "Missing 'ref' attribute in Relation member")
  ok (is_some m.m_ref && is_some m.m_type)

-- class Relation
pub record Relation : Type 0 where
  pub base : OsmObject
  pub m_relation_member : List RelationMember

abbrev pub new_relation : Relation
new_relation = record { base = new_object; m_relation_member = [] }

unfoldable pub add_member : RelationMember → Relation → Result Relation
unfolding member_is_valid
add_member member r = do
  valid ← member_is_valid member
  guard valid (payload_error "Relation member does not include all mandatory fields")
  ok (record r { m_relation_member = r.m_relation_member ++ member ∷ [] })

unfoldable pub is_valid : Limits → Operation → Relation → Result Bool
unfolding OsmObject.is_valid
is_valid limits op_delete r = OsmObject.is_valid limits op_delete r.base
is_valid limits op r = do
  guard (within limits.relation_max_members (length r.m_relation_member))
      (bad_request "You tried to add {:d} members to relation {:d}, however only {:d} are allowed")
  OsmObject.is_valid limits op r.base

-- A relation is valid exactly when it is a valid object and, unless it is to be deleted, has no
-- more members than the limit, where there is one.
pub relation_is_valid_iff :
    (limits : Limits) (op : Operation) (r : Relation)
    → (is_valid limits op r ≡ ok true) ↔ (
        IsValidObject limits op r.base
        × (op ≢ op_delete → IsWithin limits.relation_max_members (length r.m_relation_member)))
unfolding is_valid
relation_is_valid_iff limits op_delete r =
    let base = is_valid_iff limits op_delete r.base in
    (λ h. (base.0 h, λ other. absurd (other refl)), λ v. base.1 v.0)
relation_is_valid_iff limits op r =
    let base = is_valid_iff limits op r.base in
    let few = within_iff limits.relation_max_members (length r.m_relation_member) in
    (
      λ h. (base.0 (ground arith), λ other. few.0 (ground arith)),
      λ v.
          let valid = base.1 v.0 in
          let few_enough = few.1 (v.1 (λ same. cc)) in ground (arith, valid, few_enough),
    )
