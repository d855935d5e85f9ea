-- ===== src/NodeUpdater/Process.antt =====
-- node_updater.cpp: a buffer of created, modified or deleted nodes is processed.
use openstreetmap_cgimap.NodeUpdater.Reference.{
  is_node_still_referenced, save_current_node_tags_to_history, without_ids,
  save_current_nodes_to_history, delete_current_node_tags, insert_new_current_node_tags,
  determine_already_deleted_nodes, calc_node_bbox,
}
use openstreetmap_cgimap.Bbox.{expand}
use openstreetmap_cgimap.NodeUpdater.Placeholders.{
  replace_old_ids_in_nodes, check_unique_placeholder_ids,
}
use openstreetmap_cgimap.NodeUpdater.Tables.{
  delete_current_nodes, update_current_nodes, ids_of, check_current_node_versions,
  lock_current_nodes, insert_new_nodes_to_current_table, unique_ids,
}
use openstreetmap_cgimap.NodeUpdater.{NodeT, NodeUpdater}
use openstreetmap_cgimap.Packages.{build_packages}
use openstreetmap_cgimap.Prelude.{ℕ, none, some, List, [], ◌∷◌, ℕ-Eq, String-Eq, length}
use openstreetmap_cgimap.Prelude.Int.{ℤ-Eq}
use openstreetmap_cgimap.Types.{runtime_error, Result, ok, err, ◌>>=◌, ◌>>◌, ObjectType-Eq, Pair-Eq}

-- `m_bbox.expand(calc_node_bbox(ids))`
abbrev pub expand_bbox : List ℕ → NodeUpdater → NodeUpdater
expand_bbox ids s = record s { m_bbox = expand s.m_bbox (calc_node_bbox ids s) }

unfoldable pub process_new_nodes : NodeUpdater → Result NodeUpdater
process_new_nodes s = do
  placeholders ← check_unique_placeholder_ids s.create_nodes s.create_placeholder_ids
  let s0 = record s { create_placeholder_ids = placeholders }
  s1 ← insert_new_nodes_to_current_table s0.create_nodes s0
  nodes ← replace_old_ids_in_nodes s1.create_nodes s1.ct.created_node_ids
  let ids = unique_ids (ids_of nodes)
  let (s2, ids_with_tags) = insert_new_current_node_tags nodes s1
  s3 ← save_current_nodes_to_history ids s2
  let s4 = expand_bbox ids (save_current_node_tags_to_history ids_with_tags s3)
  ok (record s4 { create_nodes = [] })

-- The body of the loop over the packages.
unfoldable pub process_package : List NodeT → NodeUpdater → Result NodeUpdater
process_package pack s = do
  let ids = unique_ids (ids_of pack)
  check_current_node_versions pack s
  s1 ← update_current_nodes pack (delete_current_node_tags ids (expand_bbox ids s))
  let (s2, ids_with_tags) = insert_new_current_node_tags pack s1
  s3 ← save_current_nodes_to_history ids s2
  ok (expand_bbox ids (save_current_node_tags_to_history ids_with_tags s3))

unfoldable pub process_packages : List (List NodeT) → NodeUpdater → Result NodeUpdater
process_packages [] s = ok s
process_packages (p ∷ ps) s = process_package p s >>= process_packages ps

-- `build_packages` of this updater; a position out of range is an exception of the library.
unfoldable pub node_packages : List NodeT → Result (List (List NodeT))
node_packages nodes = elim (build_packages (λ (n : NodeT). n.id) nodes) [
  | none ↦ err (runtime_error "vector::_M_range_check")
  | some ps ↦ ok ps
]

unfoldable pub process_modify_nodes : NodeUpdater → Result NodeUpdater
process_modify_nodes s = do
  nodes ← replace_old_ids_in_nodes s.modify_nodes s.ct.created_node_ids
  lock_current_nodes (unique_ids (ids_of nodes)) s
  packages ← node_packages nodes
  s1 ← process_packages packages s
  ok (record s1 { modify_nodes = [] })

unfoldable pub process_delete_nodes : NodeUpdater → Result NodeUpdater
process_delete_nodes s = do
  nodes ← replace_old_ids_in_nodes s.delete_nodes s.ct.created_node_ids
  let ids = unique_ids (ids_of nodes)
  lock_current_nodes ids s
  (s1, already_deleted_nodes) ← determine_already_deleted_nodes nodes s
  let visible = without_ids already_deleted_nodes nodes
  check_current_node_versions visible s1
  (s2, unreferenced) ← is_node_still_referenced visible s1
  s3 ← delete_current_nodes unreferenced (expand_bbox ids s2)
  let ids_unreferenced = ids_of unreferenced
  s4 ← save_current_nodes_to_history ids_unreferenced (delete_current_node_tags ids_unreferenced s3)
  ok (record s4 { delete_nodes = [] })

-- `get_stats`: the numbers of created, modified and deleted nodes.
unfoldable pub get_stats : NodeUpdater → ℕ × ℕ × ℕ
get_stats s =
    (length s.ct.created_node_ids, length s.ct.modified_node_ids, length s.ct.deleted_node_ids)

-- What a run of the updater computes with: a test names this definition on its `unfolding` line.
unfoldable pub updater_calls : Unit {0}
unfolding process_new_nodes process_modify_nodes process_delete_nodes process_package
    process_packages node_packages build_packages check_unique_placeholder_ids
    insert_new_nodes_to_current_table replace_old_ids_in_nodes unique_ids
    insert_new_current_node_tags save_current_nodes_to_history save_current_node_tags_to_history
    calc_node_bbox expand check_current_node_versions delete_current_node_tags update_current_nodes
    lock_current_nodes determine_already_deleted_nodes without_ids is_node_still_referenced
    delete_current_nodes
updater_calls = tt
