-- ===== src/WayUpdater/Placeholders.antt =====
-- way_updater.cpp: placeholder ids of ways, and of the nodes in them.
use openstreetmap_cgimap.Prelude.{ℕ, none, some, List, [], ◌∷◌, if◌then◌else◌, ℕ-Eq, String-Eq}
use openstreetmap_cgimap.Prelude.Int.{ℤ, pos, ltb_ℤ, ℤ-Eq}
use openstreetmap_cgimap.StdMap.{StdMap, find, insert}
use openstreetmap_cgimap.Types.{Error, bad_request, Result, ok, err, ◌>>=◌, ObjectType-Eq, Pair-Eq}
use openstreetmap_cgimap.WayUpdater.{WayNodeT, WayT}
use openstreetmap_cgimap.NodeUpdater.Placeholders.{placeholder_map, duplicate_placeholder}
use openstreetmap_cgimap.Tracking.{ObjectIdMapping}

abbrev pub duplicate_way_placeholder : Error
duplicate_way_placeholder = bad_request "Duplicate way placeholder id {:d}."

-- The body of the loop of `replace_old_ids_in_way_member`.
unfoldable pub replace_old_node_id : StdMap ℤ ℕ → WayNodeT → Result WayNodeT
replace_old_node_id map_nodes wn =
    if ltb_ℤ wn.old_node_id (pos 0)
    then (elim (find wn.old_node_id map_nodes) [
      | none ↦ err (bad_request "Placeholder node not found for reference {:d} in way {:d}")
      | some i ↦ ok (record wn { node_id = i })
    ])
    else ok wn

unfoldable pub replace_old_ids_in_way_member : StdMap ℤ ℕ → List WayNodeT → Result (List WayNodeT)
unfolding replace_old_node_id find
replace_old_ids_in_way_member map_nodes [] = ok []
replace_old_ids_in_way_member map_nodes (wn ∷ wns) = do
  wn' ← replace_old_node_id map_nodes wn
  wns' ← replace_old_ids_in_way_member map_nodes wns
  ok (wn' ∷ wns')

unfoldable pub replace_old_way_id : StdMap ℤ ℕ → WayT → Result ℕ
replace_old_way_id map_ways cw =
    if ltb_ℤ cw.old_id (pos 0)
    then (elim (find cw.old_id map_ways) [
      | none ↦ err (bad_request "Placeholder id not found for way reference {:d}")
      | some i ↦ ok i
    ])
    else ok cw.id

-- The last loop of `replace_old_ids_in_ways`.
unfoldable pub replace_ids_in_ways : StdMap ℤ ℕ → StdMap ℤ ℕ → List WayT → Result (List WayT)
unfolding replace_old_ids_in_way_member replace_old_way_id find
replace_ids_in_ways map_ways map_nodes [] = ok []
replace_ids_in_ways map_ways map_nodes (cw ∷ ways) = do
  i ← replace_old_way_id map_ways cw
  wns ← replace_old_ids_in_way_member map_nodes cw.members
  ways' ← replace_ids_in_ways map_ways map_nodes ways
  ok (record cw { id = i; members = wns } ∷ ways')

unfoldable pub replace_old_ids_in_ways :
    List WayT → List ObjectIdMapping → List ObjectIdMapping → Result (List WayT)
unfolding placeholder_map replace_ids_in_ways insert
replace_old_ids_in_ways ways created_nodes created_ways = do
  map_ways ← placeholder_map duplicate_way_placeholder created_ways []
  map_nodes ← placeholder_map duplicate_placeholder created_nodes []
  replace_ids_in_ways map_ways map_nodes ways
