-- ===== src/OsmObject/Way.antt =====
-- include/cgimap/api06/changeset_upload/way.hpp.
use openstreetmap_cgimap.Prelude.{
  arith, ◌&&◌, ltb, ltb, ◌||◌, ◌↔◌, true, ◌≡◌, String, Bool, not, List, [], ◌∷◌, ◌++◌, leb, eqb,
  if◌then◌else◌, ◌==◌, ℕ-Eq, String-Eq, length,
}
use openstreetmap_cgimap.Prelude.Int.{ℤ, pos, ℤ-Eq}
use openstreetmap_cgimap.Types.{
  bad_request, payload_error, precondition_failed, Result, ok, err, ◌>>◌, guard, Operation,
  op_delete, ObjectType-Eq, Pair-Eq,
}
use openstreetmap_cgimap.Prelude.Text.{codes}
use openstreetmap_cgimap.Number.{from_chars_int64}
use openstreetmap_cgimap.OsmObject.{
  Limits, OsmObject, new_object, set_id_text, set_changeset_text, set_version_text, add_tag,
  from_text, within, unicode_strlen, is_valid_iff, IsValidObject,
}
use openstreetmap_cgimap.OsmObject
use openstreetmap_cgimap.OsmObject.{is_delete}

-- class Way
pub record Way : Type 0 where
  pub base : OsmObject
  pub m_way_nodes : List ℤ

abbrev pub new_way : Way
new_way = record { base = new_object; m_way_nodes = [] }

unfoldable pub add_way_node : ℤ → Way → Result Way
add_way_node waynode w =
    if waynode == pos 0
    then err (payload_error "Way node value may not be 0")
    else ok (record w { m_way_nodes = w.m_way_nodes ++ waynode ∷ [] })

unfoldable pub add_way_node_text : String → Way → Result Way
unfolding from_chars_int64 add_way_node
add_way_node_text waynode w =
    from_text (payload_error "Way node is not numeric")
      (payload_error "Way node value is too large") (λ z. add_way_node z w)
      (from_chars_int64 (codes waynode))

unfoldable pub is_valid : Limits → Operation → Way → Result Bool
unfolding OsmObject.is_valid
is_valid limits op_delete w = OsmObject.is_valid limits op_delete w.base
is_valid limits op w = do
  guard (not (eqb (length w.m_way_nodes) 0))
      (precondition_failed "Way {:d} must have at least one node")
  guard (leb (length w.m_way_nodes) limits.way_max_nodes)
      (bad_request "You tried to add {:d} nodes to way {:d}, however only {:d} are allowed")
  OsmObject.is_valid limits op w.base

-- A way is valid exactly when it is a valid object and, unless it is to be deleted, has a node and
-- no more nodes than the limit.
pub way_is_valid_iff :
    (limits : Limits) (op : Operation) (w : Way)
    → (is_valid limits op w ≡ ok true) ↔ (
        IsValidObject limits op w.base
        × ((is_delete op
              || (ltb 0 (length w.m_way_nodes) && leb (length w.m_way_nodes) limits.way_max_nodes))
            ≡ true))
unfolding is_valid
way_is_valid_iff limits op w = ground (arith, is_valid_iff limits op w.base)
