-- ===== src/RelationUpdater/Process.antt =====
-- relation_updater.cpp: a buffer of created, modified or deleted relations is processed.
use openstreetmap_cgimap.NodeUpdater.Tables.{unique_ids}
use openstreetmap_cgimap.Prelude.{ℕ, Bool, true, false, List, [], ◌++◌, ℕ-Eq, String-Eq}
use openstreetmap_cgimap.Prelude.Int.{ℤ-Eq}
use openstreetmap_cgimap.Types.{Result, ok, ◌>>=◌, ◌>>◌, ObjectType-Eq, Pair-Eq}
use openstreetmap_cgimap.Element.{ids_of, check_unique_ids, item_packages, process_packages}
use openstreetmap_cgimap.Element.Deletion.{without_ids}
use openstreetmap_cgimap.RelationUpdater.{RelationT, RelationUpdater}
use openstreetmap_cgimap.RelationUpdater.Placeholders.{
  replace_old_ids_in_relations, check_forward_relation_placeholders,
}
use openstreetmap_cgimap.RelationUpdater.Changes.{
  RelMemberDifferenceT, relations_with_new_relation_members, relations_with_changed_relation_tags,
  relations_with_changed_way_node_members, calc_rel_member_difference_bbox, calc_relation_bbox,
}
use openstreetmap_cgimap.RelationUpdater.Members.{
  lock_future_members, insert_new_current_relation_members,
  save_current_relation_members_to_history, delete_current_relation_members,
}
use openstreetmap_cgimap.RelationUpdater.Reference.{
  determine_already_deleted_relations, is_relation_still_referenced,
}
use openstreetmap_cgimap.RelationUpdater.Tables.{
  insert_new_relations_to_current_table, lock_current_relations, check_current_relation_versions,
  update_current_relations, insert_new_current_relation_tags, save_current_relations_to_history,
  save_current_relation_tags_to_history, delete_current_relation_tags,
}
use openstreetmap_cgimap.Bbox.{expand}

-- `m_bbox.expand(calc_relation_bbox(ids))`
abbrev pub expand_relation_bbox : List ℕ → RelationUpdater → RelationUpdater
expand_relation_bbox ids s = record s { m_bbox = expand s.m_bbox (calc_relation_bbox ids s) }

-- `m_bbox.expand(calc_rel_member_difference_bbox(diff, process_new_elements))`
abbrev pub expand_difference_bbox :
    List RelMemberDifferenceT → Bool → RelationUpdater → RelationUpdater
expand_difference_bbox diff process_new_elements s = record s {
  m_bbox = expand s.m_bbox (calc_rel_member_difference_bbox diff process_new_elements s);
}

-- The tags and the members of new or modified relations, and the history of all three tables.
unfoldable pub write_relations : List RelationT → List ℕ → RelationUpdater → Result RelationUpdater
write_relations relations ids s = do
  let (s1, ids_with_tags) = insert_new_current_relation_tags relations s
  s2 ← save_current_relations_to_history ids (insert_new_current_relation_members relations s1)
  ok (
      save_current_relation_members_to_history ids
        (save_current_relation_tags_to_history ids_with_tags s2))

unfoldable pub process_new_relations : RelationUpdater → Result RelationUpdater
process_new_relations s = do
  placeholders ← check_unique_ids s.create_relations s.create_placeholder_ids
  let s0 = record s { create_placeholder_ids = placeholders }
  check_forward_relation_placeholders s0.create_relations
  s1 ← insert_new_relations_to_current_table s0.create_relations s0
  relations ←
      replace_old_ids_in_relations s1.create_relations s1.ct.created_node_ids s1.ct.created_way_ids
        s1.ct.created_relation_ids
  let ids = unique_ids (ids_of relations)
  lock_future_members relations ids s1
  s2 ← write_relations relations ids s1
  ok (record (expand_relation_bbox ids s2) { create_relations = [] })

-- The relations of a package whose nodes and ways all count for the bounding box.
unfoldable pub rel_ids_bbox_update_full : List RelationT → RelationUpdater → List ℕ
rel_ids_bbox_update_full pack s =
    unique_ids
      (relations_with_new_relation_members pack s ++ relations_with_changed_relation_tags pack s)

-- The body of the loop over the packages; `ids` are the ids of all packages.
unfoldable pub process_relation_package :
    List ℕ → List RelationT → RelationUpdater → Result RelationUpdater
process_relation_package ids pack s = do
  let ids_package = unique_ids (ids_of pack)
  check_current_relation_versions pack s
  lock_future_members pack ids s
  let full = rel_ids_bbox_update_full pack s
  let s0 = expand_relation_bbox full s
  let partial = relations_with_changed_way_node_members pack s0
  let s1 = expand_difference_bbox partial false s0
  s2 ←
      update_current_relations pack true
        (delete_current_relation_members ids_package (delete_current_relation_tags ids_package s1))
  s3 ← write_relations pack ids_package s2
  ok (expand_difference_bbox partial true (expand_relation_bbox full s3))

unfoldable pub process_modify_relations : RelationUpdater → Result RelationUpdater
unfolding process_packages
process_modify_relations s = do
  relations ←
      replace_old_ids_in_relations s.modify_relations s.ct.created_node_ids s.ct.created_way_ids
        s.ct.created_relation_ids
  let ids = unique_ids (ids_of relations)
  lock_current_relations ids s
  packages ← item_packages relations
  s1 ← process_packages (process_relation_package ids) packages s
  ok (record s1 { modify_relations = [] })

unfoldable pub process_delete_relations : RelationUpdater → Result RelationUpdater
process_delete_relations s = do
  relations ←
      replace_old_ids_in_relations s.delete_relations s.ct.created_node_ids s.ct.created_way_ids
        s.ct.created_relation_ids
  let ids = unique_ids (ids_of relations)
  lock_current_relations ids s
  (s1, already_deleted_relations) ← determine_already_deleted_relations relations s
  let visible = without_ids already_deleted_relations relations
  check_current_relation_versions visible s1
  (s2, unreferenced) ← is_relation_still_referenced visible s1
  s3 ← update_current_relations unreferenced false (expand_relation_bbox ids s2)
  let ids_unreferenced = ids_of unreferenced
  let s4 =
      delete_current_relation_members ids_unreferenced
        (delete_current_relation_tags ids_unreferenced s3)
  s5 ← save_current_relations_to_history ids_unreferenced s4
  ok (record s5 { delete_relations = [] })

-- What a run of the updater computes with: a test names this definition on its `unfolding` line.
unfoldable pub relation_updater_calls : Unit {0}
unfolding process_new_relations process_modify_relations process_delete_relations
    process_relation_package process_packages item_packages check_unique_ids
    insert_new_relations_to_current_table replace_old_ids_in_relations unique_ids
    check_forward_relation_placeholders lock_future_members write_relations
    insert_new_current_relation_tags insert_new_current_relation_members
    save_current_relations_to_history save_current_relation_members_to_history
    save_current_relation_tags_to_history calc_relation_bbox calc_rel_member_difference_bbox expand
    rel_ids_bbox_update_full relations_with_new_relation_members
    relations_with_changed_relation_tags relations_with_changed_way_node_members
    lock_current_relations check_current_relation_versions update_current_relations
    delete_current_relation_tags delete_current_relation_members determine_already_deleted_relations
    without_ids is_relation_still_referenced
relation_updater_calls = tt
