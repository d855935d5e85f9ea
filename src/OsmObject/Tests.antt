-- ===== src/OsmObject/Tests.antt =====
-- Concrete objects.
use openstreetmap_cgimap.Prelude.Text.{codes}
use openstreetmap_cgimap.Prelude.{
  ◌≤◌, ◌≢◌, ◌≡◌, refl, ◌↔◌, true, false, none, some, [], ◌∷◌, ℕ-Eq, String-Eq, Any,
}
use openstreetmap_cgimap.Prelude.Int.{ℤ, pos, negsuc, ℤ-Eq}
use openstreetmap_cgimap.Types.{op_delete, ok, op_create, ObjectType-Eq, Pair-Eq}
use openstreetmap_cgimap.OsmObject.{
  Limits, OsmObject, new_object, is_valid_iff, IsValidObject, is_delete, within,
}
use openstreetmap_cgimap.OsmObject
use openstreetmap_cgimap.OsmObject.Node
use openstreetmap_cgimap.OsmObject.Way
use openstreetmap_cgimap.OsmObject.Relation
use openstreetmap_cgimap.OsmObject.Node.{Node, node_is_valid_iff}
use openstreetmap_cgimap.OsmObject.Way.{Way, way_is_valid_iff}
use openstreetmap_cgimap.OsmObject.Relation.{
  AreSameText, Relation, RelationMember, new_member, set_type, set_type_lem, iequals,
  relation_is_valid_iff,
}

abbrev pub limits : Limits
limits = record { element_max_tags = some 2; way_max_nodes = 2; relation_max_members = some 1 }

abbrev pub one_object : OsmObject
one_object = record {
  m_changeset = some (pos 1);
  m_id = some (negsuc 4);
  m_version = some 0;
  m_tags = ("highway", "bus_stop") ∷ [];
}

is_valid_iff_example :
    (OsmObject.is_valid limits op_create one_object ≡ ok true)
    ↔ IsValidObject limits op_create one_object
is_valid_iff_example = is_valid_iff limits op_create one_object

abbrev one_node : Node ℤ
one_node = record { base = one_object; m_lat = some (pos 10); m_lon = none }

node_is_valid_iff_example :
    (Node.is_valid limits op_create one_node ≡ ok true)
    ↔ (IsValidObject limits op_create one_object × (false ≡ true))
node_is_valid_iff_example = node_is_valid_iff limits op_create one_node

abbrev one_way : Way
one_way = record { base = one_object; m_way_nodes = pos 3 ∷ pos 4 ∷ [] }

way_is_valid_iff_example :
    (Way.is_valid limits op_create one_way ≡ ok true)
    ↔ (IsValidObject limits op_create one_object × (true ≡ true))
way_is_valid_iff_example = way_is_valid_iff limits op_create one_way

abbrev one_member : RelationMember
one_member = record { m_role = "stop"; m_ref = some (pos 3); m_type = some "Node" }

abbrev one_relation : Relation
one_relation = record { base = one_object; m_relation_member = one_member ∷ [] }

relation_is_valid_iff_example :
    (Relation.is_valid limits op_create one_relation ≡ ok true)
    ↔ (IsValidObject limits op_create one_object × (op_create ≢ op_delete → 1 ≤ 1))
relation_is_valid_iff_example = relation_is_valid_iff limits op_create one_relation

abbrev typed_member : RelationMember
typed_member = record new_member { m_type = some "Node" }

set_type_lem_example :
    (set_type "nOdE" new_member ≡ ok typed_member)
    ↔ Any
        (λ s.
          (typed_member ≡ record new_member { m_type = some s })
          × AreSameText (codes "nOdE") (codes s))
        ("Node" ∷ "Way" ∷ "Relation" ∷ [])
set_type_lem_example = set_type_lem "nOdE" new_member typed_member

typed : set_type "nOdE" new_member ≡ ok typed_member
unfolding set_type
typed = refl
