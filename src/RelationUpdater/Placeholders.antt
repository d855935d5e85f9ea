-- ===== src/RelationUpdater/Placeholders.antt =====
-- relation_updater.cpp: placeholder ids of relations, and of their members.
use openstreetmap_cgimap.Prelude.{
  ℕ, not, ◌&&◌, none, some, List, [], ◌∷◌, if◌then◌else◌, ◌==◌, ℕ-Eq, String-Eq,
}
use openstreetmap_cgimap.Prelude.Int.{ℤ, pos, ltb_ℤ, ℤ-Eq}
use openstreetmap_cgimap.StdMap.{StdMap, find, contains, insert}
use openstreetmap_cgimap.Types.{
  Error, bad_request, Result, ok, err, ◌>>=◌, ◌>>◌, ObjectType-Eq, Pair-Eq,
}
use openstreetmap_cgimap.RelationUpdater.{MemberT, RelationT}
use openstreetmap_cgimap.NodeUpdater.Placeholders.{placeholder_map, duplicate_placeholder}
use openstreetmap_cgimap.WayUpdater.Placeholders.{duplicate_way_placeholder}
use openstreetmap_cgimap.Tracking.{ObjectIdMapping}

abbrev pub duplicate_relation_placeholder : Error
duplicate_relation_placeholder = bad_request "Duplicate relation placeholder id {:d}."

-- The maps from old ids to new ids, one for each type of object.
pub record PlaceholderMaps : Type 0 where
  pub map_nodes : StdMap ℤ ℕ
  pub map_ways : StdMap ℤ ℕ
  pub map_relations : StdMap ℤ ℕ

-- The exception for a placeholder of a member that is not in its map.
abbrev pub absent_node : Error
absent_node = bad_request "Placeholder node not found for reference {:d} in relation {:d}"

abbrev pub absent_way : Error
absent_way = bad_request "Placeholder way not found for reference {:d} in relation {:d}"

abbrev pub absent_relation : Error
absent_relation = bad_request "Placeholder relation not found for reference {:d} in relation {:d}"

abbrev pub with_id : StdMap ℤ ℕ → Error → MemberT → Result MemberT
with_id m absent mbr = elim (find mbr.old_member_id m) [
  | none ↦ err absent
  | some i ↦ ok (record mbr { member_id = i })
]

-- The body of the loop of `replace_old_ids_in_relation_member`.
unfoldable pub replace_old_member_id : PlaceholderMaps → MemberT → Result MemberT
unfolding find
replace_old_member_id maps mbr =
    if not (ltb_ℤ mbr.old_member_id (pos 0))
    then ok mbr
    else if mbr.member_type == "Node"
    then with_id maps.map_nodes absent_node mbr
    else if mbr.member_type == "Way"
    then with_id maps.map_ways absent_way mbr
    else if mbr.member_type == "Relation"
    then with_id maps.map_relations absent_relation mbr
    else ok mbr

unfoldable pub replace_old_ids_in_relation_member :
    PlaceholderMaps → List MemberT → Result (List MemberT)
unfolding replace_old_member_id
replace_old_ids_in_relation_member maps [] = ok []
replace_old_ids_in_relation_member maps (mbr ∷ mbrs) = do
  mbr' ← replace_old_member_id maps mbr
  mbrs' ← replace_old_ids_in_relation_member maps mbrs
  ok (mbr' ∷ mbrs')

unfoldable pub replace_old_relation_id : StdMap ℤ ℕ → RelationT → Result ℕ
replace_old_relation_id map_relations cr =
    if ltb_ℤ cr.old_id (pos 0)
    then (elim (find cr.old_id map_relations) [
      | none ↦ err (bad_request "Placeholder id not found for relation reference {:d}")
      | some i ↦ ok i
    ])
    else ok cr.id

-- The last loop of `replace_old_ids_in_relations`.
unfoldable pub replace_ids_in_relations : PlaceholderMaps → List RelationT → Result (List RelationT)
unfolding replace_old_ids_in_relation_member replace_old_relation_id find
replace_ids_in_relations maps [] = ok []
replace_ids_in_relations maps (cr ∷ relations) = do
  i ← replace_old_relation_id maps.map_relations cr
  mbrs ← replace_old_ids_in_relation_member maps cr.members
  relations' ← replace_ids_in_relations maps relations
  ok (record cr { id = i; members = mbrs } ∷ relations')

unfoldable pub replace_old_ids_in_relations :
    List RelationT
    → List ObjectIdMapping
    → List ObjectIdMapping
    → List ObjectIdMapping
    → Result (List RelationT)
unfolding placeholder_map replace_ids_in_relations insert
replace_old_ids_in_relations relations created_nodes created_ways created_relations = do
  map_relations ← placeholder_map duplicate_relation_placeholder created_relations []
  map_ways ← placeholder_map duplicate_way_placeholder created_ways []
  map_nodes ← placeholder_map duplicate_placeholder created_nodes []
  replace_ids_in_relations
      (record { map_nodes = map_nodes; map_ways = map_ways; map_relations = map_relations })
      relations

-- A member refers to no relation with a placeholder, or to one that stands before.
unfoldable pub check_forward_members : StdMap ℤ (Unit {0}) → List MemberT → Result (Unit {0})
unfolding contains find
check_forward_members placeholder_ids [] = ok tt
check_forward_members placeholder_ids (mbr ∷ mbrs) =
    let rest = check_forward_members placeholder_ids mbrs in
    if ltb_ℤ mbr.old_member_id (pos 0)
      && mbr.member_type == "Relation"
      && not (contains mbr.old_member_id placeholder_ids)
    then err absent_relation
    else rest

unfoldable pub check_forward_from : StdMap ℤ (Unit {0}) → List RelationT → Result (Unit {0})
unfolding check_forward_members insert
check_forward_from placeholder_ids [] = ok tt
check_forward_from placeholder_ids (cr ∷ relations) =
    let next =
      if ltb_ℤ cr.old_id (pos 0)
      then (insert cr.old_id tt placeholder_ids).0
      else placeholder_ids in
    do check_forward_members placeholder_ids cr.members; check_forward_from next relations

unfoldable pub check_forward_relation_placeholders : List RelationT → Result (Unit {0})
unfolding check_forward_from
check_forward_relation_placeholders relations = check_forward_from [] relations
