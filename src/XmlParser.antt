-- ===== src/XmlParser.antt =====
-- include/cgimap/api06/changeset_upload/osmchange_xml_input_format.hpp: the parser of an upload.
pub mod Events
pub mod Reader
pub mod Nesting
pub mod Objects
pub mod Contents
pub mod Refines
pub mod Versions
pub mod Valid
mod Tests
use openstreetmap_cgimap.Prelude.{
  ℕ, String, Bool, true, false, not, Option, none, some, List, [], ◌∷◌, eqb, if◌then◌else◌, ◌==◌,
  ℕ-Eq, String-Eq,
}
use openstreetmap_cgimap.Prelude.Int.{pos, ℤ-Eq}
use openstreetmap_cgimap.StdMap.{is_some}
use openstreetmap_cgimap.Types.{
  Error, payload_error, assertion_failed, Result, ok, err, ◌>>=◌, ◌>>◌, guard, Operation,
  op_undefined, op_create, ObjectType-Eq, Pair-Eq,
}
use openstreetmap_cgimap.OsmObject.{
  OsmObject, set_version, set_id_text, set_changeset_text, set_version_text, add_tag,
}
use openstreetmap_cgimap.OsmObject.Node.{Node}
use openstreetmap_cgimap.OsmObject.Way.{Way, add_way_node_text}
use openstreetmap_cgimap.OsmObject.Relation.{
  Relation, RelationMember, new_member, set_type, set_role, set_ref_text, member_is_valid,
  add_member,
}

abbrev pub Attributes : Type 0
Attributes = List (String × String)

-- `check_attributes`: the attributes one after the other
unfoldable pub check_attributes {ℓ} :
    {A : Type ℓ} → (String → String → A → Result A) → Attributes → A → Result A
check_attributes check [] a = ok a
check_attributes check ((name, value) ∷ attrs) a =
    check name value a >>= check_attributes check attrs

abbrev pub object_attribute : String → String → OsmObject → Result OsmObject
unfolding set_id_text set_changeset_text set_version_text
object_attribute name value o =
    if name == "id"
    then set_id_text value o
    else (if name == "changeset"
        then set_changeset_text value o
        else (if name == "version" then set_version_text value o else ok o))

abbrev pub get_or_zero : Option ℕ → ℕ
get_or_zero none = 0
get_or_zero (some n) = n

-- Create operations override the version; for the other ones it has to be positive.
abbrev pub init_version : Operation → OsmObject → Result OsmObject
unfolding set_version
init_version op_create o = set_version (pos 0) o
init_version op_undefined o = ok o
init_version _ o = do
  guard (is_some o.m_version) (payload_error "Version is required when updating {}")
  guard (not (eqb (get_or_zero o.m_version) 0)) (payload_error "Invalid version number {} in {}")
  ok o

abbrev pub tag_attribute :
    String → String → Option String × Option String → Result (Option String × Option String)
tag_attribute name value (k, v) =
    if name == "k"
    then ok (some value, v)
    else (if name == "v" then ok (k, some value) else ok (k, v))

abbrev pub member_attribute : String → String → RelationMember → Result RelationMember
unfolding set_type set_ref_text set_role
member_attribute name value m =
    if name == "type"
    then set_type value m
    else (if name == "ref"
        then set_ref_text value m
        else (if name == "role" then set_role value m else ok m))

abbrev pub nd_attribute : String → String → Way × Bool → Result (Way × Bool)
unfolding add_way_node_text
nd_attribute name value (w, found) =
    if name == "ref" then (add_way_node_text value w >>= λ w'. ok (w', true)) else ok (w, found)

unfoldable pub init_object : Operation → Attributes → OsmObject → Result OsmObject
unfolding check_attributes set_id_text set_changeset_text set_version_text set_version
init_object op attrs o = do
  o' ← check_attributes object_attribute attrs o
  guard (is_some o'.m_id) (payload_error "Mandatory field id missing in object")
  guard (is_some o'.m_changeset) (payload_error "Changeset id is missing for {}")
  init_version op o'

-- `if (!o) throw e;`, and what o holds
abbrev pub required : Error → Option String → Result String
required e none = err e
required e (some s) = ok s

unfoldable pub add_tag_element : Attributes → OsmObject → Result OsmObject
unfolding check_attributes add_tag
add_tag_element attrs o = do
  (k, v) ← check_attributes tag_attribute attrs (none, none)
  key ← required (payload_error "Mandatory field k missing in tag element for {}") k
  text ← required (payload_error "Mandatory field v missing in tag element for {}") v
  add_tag key text o

unfoldable pub add_member_element : Attributes → Relation → Result Relation
unfolding check_attributes set_type set_role set_ref_text member_is_valid add_member
add_member_element attrs r = do
  member ← check_attributes member_attribute attrs new_member
  valid ← member_is_valid member
  guard valid (payload_error "Missing mandatory field on relation member in {}")
  add_member member r

unfoldable pub add_nd_element : Attributes → Way → Result Way
unfolding check_attributes add_way_node_text
add_nd_element attrs w = do
  (w', ref_found) ← check_attributes nd_attribute attrs (w, false)
  guard ref_found (payload_error "Missing mandatory ref field on way node {}")
  ok w'

-- enum class context
pub data Context : Type 0 where
  root top in_create in_modify in_delete in_node in_way in_relation in_object : Context

-- class Parser_Callback
pub record ParserCallback (D S : Type 0) : Type 0 where
  pub start_document : S → Result S
  pub end_document : S → Result S
  pub process_node : Node D → Operation → Bool → S → Result S
  pub process_way : Way → Operation → Bool → S → Result S
  pub process_relation : Relation → Operation → Bool → S → Result S

-- class OSMChangeXMLParser, with the state of its callback. The back of the vector of contexts is
-- the head of the list; a null pointer is `none`.
pub record XmlParser (D S : Type 0) : Type 0 where
  pub m_operation : Operation
  pub m_context : List Context
  pub m_callback : S
  pub m_node : Option (Node D)
  pub m_way : Option Way
  pub m_relation : Option Relation
  pub m_if_unused : Bool

abbrev pub new_parser : {D S : Type 0} → S → XmlParser D S
new_parser s = record {
  m_operation = op_undefined;
  m_context = root ∷ [];
  m_callback = s;
  m_node = none;
  m_way = none;
  m_relation = none;
  m_if_unused = false;
}

-- `*p` of a unique_ptr
abbrev pub deref {ℓ} : {A : Type ℓ} → Option A → Result A
deref none = err (assertion_failed "null pointer")
deref (some a) = ok a

-- `assert(b)`
abbrev pub assert : Bool → Result (Unit {0})
assert b = guard b (assertion_failed "assert")

-- What libxml++ calls the parser with.
pub data Event : Type 0 where
  start_element : String → Attributes → Event
  end_element : String → Event
