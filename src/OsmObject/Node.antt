-- ===== src/OsmObject/Node.antt =====
-- include/cgimap/api06/changeset_upload/node.hpp.
use openstreetmap_cgimap.Prelude.{
  String, ◌≡◌, ◌↔◌, Bool, true, not, ◌&&◌, ◌||◌, Option, none, some, arith, ℕ-Eq, String-Eq,
}
use openstreetmap_cgimap.Prelude.Int.{ℤ, pos, negsuc, ℤ-Eq}
use openstreetmap_cgimap.StdMap.{is_some}
use openstreetmap_cgimap.Types.{
  payload_error, Result, ok, ◌>>=◌, ◌>>◌, guard, Operation, op_delete, ObjectType-Eq, Pair-Eq,
}
use openstreetmap_cgimap.Double.{DoubleOps}
use openstreetmap_cgimap.OsmObject.{
  Limits, OsmObject, new_object, set_id_text, set_changeset_text, set_version_text, add_tag,
  from_text, within, unicode_strlen, is_valid_iff, IsValidObject,
}
use openstreetmap_cgimap.OsmObject
use openstreetmap_cgimap.OsmObject.{is_delete}

-- class Node
pub record Node (D : Type 0) : Type 0 where
  pub base : OsmObject
  pub m_lat : Option D
  pub m_lon : Option D

abbrev pub new_node : {D : Type 0} → Node D
new_node = record { base = new_object; m_lat = none; m_lon = none }

-- Not below the negative of the limit, and not above the limit.
abbrev pub in_degrees : {D : Type 0} → DoubleOps D → ℤ → ℤ → D → Bool
in_degrees ops low high x = not (ops.lt x (ops.lit low) || ops.lt (ops.lit high) x)

unfoldable pub set_lat : {D : Type 0} → DoubleOps D → D → Node D → Result (Node D)
set_lat ops lat n = do
  guard (in_degrees ops (negsuc 89) (pos 90) lat) (payload_error "Latitude outside of valid range")
  guard (ops.is_finite lat) (payload_error "Latitude not a valid finite number")
  ok (record n { m_lat = some lat })

unfoldable pub set_lon : {D : Type 0} → DoubleOps D → D → Node D → Result (Node D)
set_lon ops lon n = do
  guard (in_degrees ops (negsuc 179) (pos 180) lon)
      (payload_error "Longitude outside of valid range")
  guard (ops.is_finite lon) (payload_error "Longitude not a valid finite number")
  ok (record n { m_lon = some lon })

unfoldable pub set_lat_text : {D : Type 0} → DoubleOps D → String → Node D → Result (Node D)
unfolding set_lat
set_lat_text ops lat n =
    from_text (payload_error "Latitude is not numeric")
      (payload_error "Latitude value is too large") (λ x. set_lat ops x n) (ops.from_chars lat)

unfoldable pub set_lon_text : {D : Type 0} → DoubleOps D → String → Node D → Result (Node D)
unfolding set_lon
set_lon_text ops lon n =
    from_text (payload_error "Longitude is not numeric")
      (payload_error "Longitude value is too large") (λ x. set_lon ops x n) (ops.from_chars lon)

unfoldable pub is_valid : {D : Type 0} → Limits → Operation → Node D → Result Bool
unfolding OsmObject.is_valid
is_valid limits op_delete n = OsmObject.is_valid limits op_delete n.base
is_valid limits op n =
    OsmObject.is_valid limits op n.base >>= λ b. ok (b && is_some n.m_lat && is_some n.m_lon)

-- A node is valid exactly when it is a valid object and, unless it is to be deleted, has both
-- coordinates.
pub node_is_valid_iff :
    {D : Type 0} (limits : Limits) (op : Operation) (n : Node D)
    → (is_valid limits op n ≡ ok true) ↔ (
        IsValidObject limits op n.base
        × ((is_delete op || (is_some n.m_lat && is_some n.m_lon)) ≡ true))
unfolding is_valid
node_is_valid_iff limits op n = ground (arith, is_valid_iff limits op n.base)
