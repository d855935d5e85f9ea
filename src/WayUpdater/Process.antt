-- ===== src/WayUpdater/Process.antt =====
-- way_updater.cpp: a buffer of created, modified or deleted ways is processed.
use openstreetmap_cgimap.NodeUpdater.Tables.{unique_ids}
use openstreetmap_cgimap.Prelude.{ℕ, true, false, List, [], ℕ-Eq, String-Eq}
use openstreetmap_cgimap.Prelude.Int.{ℤ-Eq}
use openstreetmap_cgimap.Types.{Result, ok, ◌>>=◌, ◌>>◌, ObjectType-Eq, Pair-Eq}
use openstreetmap_cgimap.Element.{ids_of, check_unique_ids, item_packages, process_packages}
use openstreetmap_cgimap.Element.Deletion.{without_ids}
use openstreetmap_cgimap.WayUpdater.{WayT, WayUpdater}
use openstreetmap_cgimap.WayUpdater.Placeholders.{replace_old_ids_in_ways}
use openstreetmap_cgimap.WayUpdater.Reference.{
  determine_already_deleted_ways, is_way_still_referenced,
}
use openstreetmap_cgimap.WayUpdater.Tables.{
  insert_new_ways_to_current_table, calc_way_bbox, lock_current_ways, check_current_way_versions,
  lock_future_nodes, update_current_ways, insert_new_current_way_tags, insert_new_current_way_nodes,
  save_current_ways_to_history, save_current_way_nodes_to_history, save_current_way_tags_to_history,
  delete_current_way_tags, delete_current_way_nodes,
}
use openstreetmap_cgimap.Bbox.{expand}

-- `m_bbox.expand(calc_way_bbox(ids))`
abbrev pub expand_way_bbox : List ℕ → WayUpdater → WayUpdater
expand_way_bbox ids s = record s { m_bbox = expand s.m_bbox (calc_way_bbox ids s) }

-- The tags and the nodes of new or modified ways, and the history of all three tables.
unfoldable pub write_ways : List WayT → List ℕ → WayUpdater → Result WayUpdater
write_ways ways ids s = do
  let (s1, ids_with_tags) = insert_new_current_way_tags ways s
  s2 ← save_current_ways_to_history ids (insert_new_current_way_nodes ways s1)
  ok (save_current_way_nodes_to_history ids (save_current_way_tags_to_history ids_with_tags s2))

unfoldable pub process_new_ways : WayUpdater → Result WayUpdater
process_new_ways s = do
  placeholders ← check_unique_ids s.create_ways s.create_placeholder_ids
  let s0 = record s { create_placeholder_ids = placeholders }
  s1 ← insert_new_ways_to_current_table s0.create_ways s0
  ways ← replace_old_ids_in_ways s1.create_ways s1.ct.created_node_ids s1.ct.created_way_ids
  let ids = unique_ids (ids_of ways)
  lock_future_nodes ways s1
  s2 ← write_ways ways ids s1
  ok (record (expand_way_bbox ids s2) { create_ways = [] })

-- The body of the loop over the packages; `ids` are the ids of all packages.
unfoldable pub process_way_package : List ℕ → List WayT → WayUpdater → Result WayUpdater
process_way_package ids pack s = do
  let ids_package = unique_ids (ids_of pack)
  check_current_way_versions pack s
  lock_future_nodes pack s
  let s0 = expand_way_bbox ids_package s
  s1 ←
      update_current_ways pack true
        (delete_current_way_nodes ids_package (delete_current_way_tags ids_package s0))
  s2 ← write_ways pack ids_package s1
  ok (expand_way_bbox ids s2)

unfoldable pub process_modify_ways : WayUpdater → Result WayUpdater
unfolding process_packages
process_modify_ways s = do
  ways ← replace_old_ids_in_ways s.modify_ways s.ct.created_node_ids s.ct.created_way_ids
  let ids = unique_ids (ids_of ways)
  lock_current_ways ids s
  packages ← item_packages ways
  s1 ← process_packages (process_way_package ids) packages s
  ok (record s1 { modify_ways = [] })

unfoldable pub process_delete_ways : WayUpdater → Result WayUpdater
process_delete_ways s = do
  ways ← replace_old_ids_in_ways s.delete_ways s.ct.created_node_ids s.ct.created_way_ids
  let ids = unique_ids (ids_of ways)
  lock_current_ways ids s
  (s1, already_deleted_ways) ← determine_already_deleted_ways ways s
  let visible = without_ids already_deleted_ways ways
  check_current_way_versions visible s1
  (s2, unreferenced) ← is_way_still_referenced visible s1
  s3 ← update_current_ways unreferenced false (expand_way_bbox ids s2)
  let ids_unreferenced = ids_of unreferenced
  let s4 = delete_current_way_nodes ids_unreferenced (delete_current_way_tags ids_unreferenced s3)
  s5 ← save_current_ways_to_history ids_unreferenced s4
  ok (record s5 { delete_ways = [] })

-- What a run of the updater computes with: a test names this definition on its `unfolding` line.
unfoldable pub way_updater_calls : Unit {0}
unfolding process_new_ways process_modify_ways process_delete_ways process_way_package
    process_packages item_packages check_unique_ids insert_new_ways_to_current_table
    replace_old_ids_in_ways unique_ids lock_future_nodes write_ways insert_new_current_way_tags
    insert_new_current_way_nodes save_current_ways_to_history save_current_way_nodes_to_history
    save_current_way_tags_to_history calc_way_bbox expand lock_current_ways
    check_current_way_versions update_current_ways delete_current_way_tags delete_current_way_nodes
    determine_already_deleted_ways without_ids is_way_still_referenced
way_updater_calls = tt
