-- ===== src/XmlParser/Versions.antt =====
use openstreetmap_cgimap.XmlParser.{get_or_zero, required}
-- The versions that include/cgimap/api06/changeset_upload/osmchange_xml_input_format.hpp gives to
-- the objects that it reads.
use openstreetmap_cgimap.Prelude.{
  ℕ, zero, suc, String, ◌≡◌, refl, sym, ap, ◌∙◌, ◌≢◌, inl, inr, Bool, true, false, Option, none,
  some, [], ◌∷◌, arith, eqb, ◌==◌, ℕ-Eq, String-Eq, Bool-cases,
}
use openstreetmap_cgimap.Prelude.Int.{ℤ-Eq, to_uint64}
use openstreetmap_cgimap.StdMap.{is_some}
use openstreetmap_cgimap.Types.{
  Result, ok, guard, >>=-eq-ok, ok-injective, Operation, op_undefined, op_create, op_modify,
  op_delete, ObjectType-Eq, Pair-Eq,
}
use openstreetmap_cgimap.OsmObject.{OsmObject, set_version, add_tag}
use openstreetmap_cgimap.OsmObject.Node.{Node}
use openstreetmap_cgimap.OsmObject.Way.{Way, add_way_node_text, add_way_node}
use openstreetmap_cgimap.OsmObject.Relation.{Relation, add_member, member_is_valid, new_member}
use openstreetmap_cgimap.XmlParser.{
  Attributes, check_attributes, init_object, object_attribute, tag_attribute, nd_attribute,
  member_attribute, init_version, add_tag_element, add_member_element, add_nd_element,
}
use openstreetmap_cgimap.XmlParser.Reader.{
  Elements, element, no_elements, more, no_children, read_children, node_child, way_child,
  relation_child,
}

-- The version that an object has when it is read for an operation: none is taken from the message
-- for a new object, and another one has a positive version.
unfoldable pub VersionFits : Operation → OsmObject → Type 0
VersionFits op_create o = o.m_version ≡ some 0
VersionFits op_undefined o = ⊥
VersionFits op o = (v : ℕ) × (o.m_version ≡ some (suc v))

positive :
    (m : Option ℕ) → is_some m ≡ true → eqb (get_or_zero m) 0 ≡ false → (v : ℕ) × (m ≡ some (suc v))
positive none h e = ground arith
positive (some zero) h e = ground arith
positive (some (suc v)) h e = (v, refl)

init_version-VersionFits :
    (op : Operation) (o o' : OsmObject)
    → op ≢ op_undefined
    → init_version op o ≡ ok o'
    → VersionFits op o'
unfolding set_version to_uint64 VersionFits
init_version-VersionFits op_create o o' d h = ground arith
init_version-VersionFits op_modify o o' d h =
    let same : o' ≡ o = ground arith in rw same (positive o.m_version (ground arith) (ground arith))
init_version-VersionFits op_delete o o' d h =
    let same : o' ≡ o = ground arith in rw same (positive o.m_version (ground arith) (ground arith))
init_version-VersionFits op_undefined o o' d h = ground arith

pub init_object-VersionFits :
    (op : Operation) (attrs : Attributes) (o o' : OsmObject)
    → op ≢ op_undefined
    → init_object op attrs o ≡ ok o'
    → VersionFits op o'
unfolding init_object
init_object-VersionFits op attrs o o' d h =
    let (o1, h1, h2) = >>=-eq-ok (check_attributes object_attribute attrs o) _ h in
    let (u1, g1, h3) = >>=-eq-ok (guard (is_some o1.m_id) _) _ h2 in
    let (u2, g2, h4) = >>=-eq-ok (guard (is_some o1.m_changeset) _) _ h3 in
    init_version-VersionFits op o1 o' d h4

add_tag-m_version :
    (key text : String) (o o' : OsmObject) → add_tag key text o ≡ ok o' → o'.m_version ≡ o.m_version
unfolding add_tag
add_tag-m_version key text o o' h = ground arith

pub add_tag_element-m_version :
    (attrs : Attributes) (o o' : OsmObject)
    → add_tag_element attrs o ≡ ok o'
    → o'.m_version ≡ o.m_version
unfolding add_tag_element
add_tag_element-m_version attrs o o' h =
    let ((k, v), h1, h2) = >>=-eq-ok (check_attributes tag_attribute attrs (none, none)) _ h in
    let (key, h3, h4) = >>=-eq-ok (required _ k) _ h2 in
    let (text, h5, h6) = >>=-eq-ok (required _ v) _ h4 in add_tag-m_version key text o o' h6

add_way_node_text-base :
    (text : String) (w w' : Way) → add_way_node_text text w ≡ ok w' → w'.base ≡ w.base
unfolding add_way_node_text add_way_node
add_way_node_text-base text w w' h = ground arith

nd_attribute-base :
    (name text : String) (w w' : Way) (f f' : Bool)
    → nd_attribute name text (w, f) ≡ ok (w', f')
    → w'.base ≡ w.base
unfolding nd_attribute
nd_attribute-base name text w w' f f' h = elim (Bool-cases (name == "ref")) [
  | inl is_ref ↦
      let (w1, h1, h2) = >>=-eq-ok (add_way_node_text text w) _ (rw is_ref at h) in
      ground (arith, add_way_node_text-base text w w1)
  | inr other ↦ ground arith
]

nd_attributes-base :
    (attrs : Attributes) (w w' : Way) (f f' : Bool)
    → check_attributes nd_attribute attrs (w, f) ≡ ok (w', f')
    → w'.base ≡ w.base
unfolding check_attributes
nd_attributes-base [] w w' f f' h = ground arith
nd_attributes-base ((name, text) ∷ attrs) w w' f f' h =
    let ((w1, f1), h1, h2) = >>=-eq-ok (nd_attribute name text (w, f)) _ h in
    nd_attributes-base attrs w1 w' f1 f' h2 ∙ nd_attribute-base name text w w1 f f1 h1

add_nd_element-base :
    (attrs : Attributes) (w w' : Way) → add_nd_element attrs w ≡ ok w' → w'.base ≡ w.base
unfolding add_nd_element
add_nd_element-base attrs w w' h =
    let ((w1, f1), h1, h2) = >>=-eq-ok (check_attributes nd_attribute attrs (w, false)) _ h in
    ground (arith, nd_attributes-base attrs w w1 false f1)

add_member_element-base :
    (attrs : Attributes) (r r' : Relation) → add_member_element attrs r ≡ ok r' → r'.base ≡ r.base
unfolding add_member_element add_member
add_member_element-base attrs r r' h =
    let (member, h1, h2) = >>=-eq-ok (check_attributes member_attribute attrs new_member) _ h in
    let (valid, h3, h4) = >>=-eq-ok (member_is_valid member) _ h2 in ground arith

-- The elements within an object change neither its version nor its id.
pub children-VersionFits {ℓ} :
    {A : Type ℓ} (f : String → Attributes → A → Result A) (base_of : A → OsmObject) (op : Operation)
    → ((name : String) (attrs : Attributes) (a a' : A)
        → f name attrs a ≡ ok a'
        → (base_of a').m_version ≡ (base_of a).m_version)
    → (es : Elements) (a a' : A) → read_children f es a ≡ ok a'
    → (base_of a').m_version ≡ (base_of a).m_version
unfolding read_children
children-VersionFits f base_of op same no_elements a a' h =
    ap (λ x. (base_of x).m_version) (ok-injective (sym h))
children-VersionFits f base_of op same (more (element name attrs children) es) a a' h =
    let (a1, h1, h2) = >>=-eq-ok (f name attrs a) _ h in
    let (u, h3, h4) = >>=-eq-ok (no_children children) _ h2 in
    children-VersionFits f base_of op same es a1 a' h4 ∙ same name attrs a a1 h1

pub node_child-m_version :
    {D : Type 0} (name : String) (attrs : Attributes) (n n' : Node D)
    → node_child name attrs n ≡ ok n'
    → n'.base.m_version ≡ n.base.m_version
unfolding node_child
node_child-m_version name attrs n n' h = elim (Bool-cases (name == "tag")) [
  | inl is_tag ↦
      let (o, h1, h2) = >>=-eq-ok (add_tag_element attrs n.base) _ (rw (is_tag) at h) in
      ap (λ (x : Node _). x.base.m_version) (ok-injective (sym h2))
      ∙ add_tag_element-m_version attrs n.base o h1
  | inr other ↦ ground arith
]

pub way_child-m_version :
    (name : String) (attrs : Attributes) (w w' : Way)
    → way_child name attrs w ≡ ok w'
    → w'.base.m_version ≡ w.base.m_version
unfolding way_child
way_child-m_version name attrs w w' h = elim (Bool-cases (name == "nd")) [
  | inl is_it ↦ ap (λ o. o.m_version) (add_nd_element-base attrs w w' (rw is_it at h))
  | inr not_it ↦ elim (Bool-cases (name == "tag")) [
    | inl is_tag ↦
        let (o, h1, h2) = >>=-eq-ok (add_tag_element attrs w.base) _ (rw (not_it, is_tag) at h) in
        ap (λ (x : Way). x.base.m_version) (ok-injective (sym h2))
        ∙ add_tag_element-m_version attrs w.base o h1
    | inr other ↦ ground arith
  ]
]

pub relation_child-m_version :
    (name : String) (attrs : Attributes) (r r' : Relation)
    → relation_child name attrs r ≡ ok r'
    → r'.base.m_version ≡ r.base.m_version
unfolding relation_child
relation_child-m_version name attrs r r' h = elim (Bool-cases (name == "member")) [
  | inl is_it ↦ ap (λ o. o.m_version) (add_member_element-base attrs r r' (rw is_it at h))
  | inr not_it ↦ elim (Bool-cases (name == "tag")) [
    | inl is_tag ↦
        let (o, h1, h2) = >>=-eq-ok (add_tag_element attrs r.base) _ (rw (not_it, is_tag) at h) in
        ap (λ (x : Relation). x.base.m_version) (ok-injective (sym h2))
        ∙ add_tag_element-m_version attrs r.base o h1
    | inr other ↦ ground arith
  ]
]

pub VersionFits-same :
    (op : Operation) (o o' : OsmObject)
    → o'.m_version ≡ o.m_version
    → VersionFits op o
    → VersionFits op o'
unfolding VersionFits
VersionFits-same op_create o o' h f = h ∙ f
VersionFits-same op_undefined o o' h f = f
VersionFits-same op_modify o o' h (v, f) = (v, h ∙ f)
VersionFits-same op_delete o o' h (v, f) = (v, h ∙ f)
