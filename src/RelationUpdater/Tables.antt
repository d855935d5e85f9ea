-- ===== src/RelationUpdater/Tables.antt =====
-- relation_updater.cpp: the statements that change or check the tables of relations and their tags.
use openstreetmap_cgimap.NodeUpdater.Tables.{old_id_at, unique_ids}
use openstreetmap_cgimap.Prelude.{
  ℕ, ◌+◌, Bool, List, [], ◌∷◌, ◌++◌, map, if◌then◌else◌, ◌==◌, ℕ-Eq, String-Eq, length,
}
use openstreetmap_cgimap.Prelude.Int.{ℤ-Eq}
use openstreetmap_cgimap.StdMap.{find, assign}
use openstreetmap_cgimap.Types.{
  not_found, conflict, server_error, Result, ok, ◌>>◌, guard, ObjectType-Eq, Pair-Eq,
}
use openstreetmap_cgimap.Element.{
  rows_of_ids, row_ids, missing_from, none_missing, ids_mapping, insert_op, check_versions,
  update_rows, returned_rows, id_to_old_id, returned_mapping,
}
use openstreetmap_cgimap.Element.Tags.{all_tag_rows, tag_ids, without_tags, history_tags}
use openstreetmap_cgimap.RelationUpdater.{RelationT, RelationUpdater}

unfoldable pub insert_new_relations_to_current_table :
    List RelationT → RelationUpdater → Result RelationUpdater
unfolding ids_mapping insert_op
insert_new_relations_to_current_table relations s =
    let r = ids_mapping s.db.current_relations_id_seq relations in
    do
      guard (length r == length relations)
          (server_error "Could not create all new relations in current table")
      ok (record s {
        db = record (s.db) {
          current_relations = s.db.current_relations ++ insert_op r relations;
          current_relations_id_seq = s.db.current_relations_id_seq + length relations;
        };
        ct = record (s.ct) { created_relation_ids = s.ct.created_relation_ids ++ r };
      })

unfoldable pub lock_current_relations : List ℕ → RelationUpdater → Result (Unit {0})
unfolding missing_from
lock_current_relations ids s =
    none_missing (not_found "The following relation ids are unknown: {}")
      (missing_from ids (row_ids s.db.current_relations))

unfoldable pub check_current_relation_versions :
    List RelationT → RelationUpdater → Result (Unit {0})
unfolding check_versions
check_current_relation_versions relations s =
    check_versions (conflict "Version mismatch: Provided {:d}, server had: {:d} of Relation {:d}")
      relations s.db.current_relations

unfoldable pub update_current_relations :
    List RelationT → Bool → RelationUpdater → Result RelationUpdater
unfolding update_rows returned_rows id_to_old_id find assign
update_current_relations [] visible s = ok s
update_current_relations (x ∷ xs) visible s =
    let r = returned_rows visible (x ∷ xs) s.db.current_relations in
    let m = id_to_old_id (x ∷ xs) [] in
    do
      guard (length r == length (x ∷ xs)) (server_error "Could not update all current relations")
      ok (record s {
        db = record (s.db) {
          current_relations = update_rows visible (x ∷ xs) s.db.current_relations;
        };
        ct =
            if visible
            then record (s.ct) {
              modified_relation_ids = s.ct.modified_relation_ids ++ map (returned_mapping m) r;
            }
            else record (s.ct) {
              deleted_relation_ids = s.ct.deleted_relation_ids ++ map (λ r'. old_id_at m r'.id) r;
            };
      })

-- The new tags, and the ids of the relations that have tags.
unfoldable pub insert_new_current_relation_tags :
    List RelationT → RelationUpdater → RelationUpdater × List ℕ
unfolding all_tag_rows unique_ids
insert_new_current_relation_tags relations s =
    let rows = all_tag_rows relations in
    (
      record s {
        db = record (s.db) { current_relation_tags = s.db.current_relation_tags ++ rows };
      },
      unique_ids (tag_ids rows),
    )

unfoldable pub save_current_relations_to_history : List ℕ → RelationUpdater → Result RelationUpdater
unfolding rows_of_ids
save_current_relations_to_history ids s =
    let rows = rows_of_ids ids s.db.current_relations in
    do
      guard (length rows == length ids) (server_error "Could not save current relations to history")
      ok (record s { db = record (s.db) { relations = s.db.relations ++ rows } })

unfoldable pub save_current_relation_tags_to_history : List ℕ → RelationUpdater → RelationUpdater
unfolding history_tags
save_current_relation_tags_to_history ids s = record s {
  db = record (s.db) {
    relation_tags =
        s.db.relation_tags ++ history_tags ids s.db.current_relations s.db.current_relation_tags;
  };
}

unfoldable pub delete_current_relation_tags : List ℕ → RelationUpdater → RelationUpdater
unfolding without_tags
delete_current_relation_tags ids s = record s {
  db = record (s.db) { current_relation_tags = without_tags ids s.db.current_relation_tags };
}
