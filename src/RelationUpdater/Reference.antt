-- ===== src/RelationUpdater/Reference.antt =====
-- relation_updater.cpp: the relations that a deletion with if-unused leaves alone.
use openstreetmap_cgimap.NodeUpdater.Tables.{mem_id, unique_ids}
use openstreetmap_cgimap.Prelude.{
  ℕ, true, false, not, ◌&&◌, Option, none, some, List, [], ◌∷◌, ◌++◌, if◌then◌else◌, ◌==◌, ℕ-Eq,
  String-Eq, length,
}
use openstreetmap_cgimap.Prelude.Int.{ℤ-Eq}
use openstreetmap_cgimap.StdMap.{find, assign}
use openstreetmap_cgimap.Types.{
  gone, precondition_failed, server_error, runtime_error, Result, ok, err, ◌>>=◌, ◌>>◌, guard,
  ObjectType-Eq, Pair-Eq,
}
use openstreetmap_cgimap.Element.{rows_of_ids, ids_of, id_to_old_id}
use openstreetmap_cgimap.Element.Deletion.{
  already_deleted_items, skipped, ids_with_flag, without_ids,
}
use openstreetmap_cgimap.NodeUpdater.Reference.{referenced_ids, excluded_ids}
use openstreetmap_cgimap.RelationUpdater.{RelationT, RelationUpdater}
use openstreetmap_cgimap.RelationUpdater.Changes.{member_ids_of}
use openstreetmap_cgimap.RelationUpdater.Children.{collect_recursive_relation_rel_member_ids}
use openstreetmap_cgimap.Database.{Database, ElementRow}
use openstreetmap_cgimap.Tracking.{OsmChangeTracking}

abbrev pub skip_relations : List RelationT → List ElementRow → OsmChangeTracking → OsmChangeTracking
skip_relations relations rows ct = record ct {
  skip_deleted_relation_ids = ct.skip_deleted_relation_ids ++ skipped relations rows;
}

-- The ids of the relations that are deleted already come back.
unfoldable pub determine_already_deleted_relations :
    List RelationT → RelationUpdater → Result (RelationUpdater × List ℕ)
unfolding already_deleted_items id_to_old_id find assign
determine_already_deleted_relations relations s = do
  (ids, reported) ←
      already_deleted_items (gone "The relation with the id {:d} has already been deleted")
        relations s.db.current_relations
  ok (record s { ct = skip_relations relations reported s.ct }, ids)

-- The ids of the visible relations that are not in a list.
unfoldable pub outside_relations : List ℕ → List ElementRow → List ℕ
outside_relations ids [] = []
outside_relations ids (r ∷ rs) =
    if r.visible && not (mem_id r.id ids)
    then r.id ∷ outside_relations ids rs
    else outside_relations ids rs

-- The query relation_still_referenced_by_relation: the relations of the list that are members of
-- visible relations that are not in the list.
unfoldable pub used_outside : List ℕ → Database → List ℕ
unfolding outside_relations member_ids_of referenced_ids unique_ids
used_outside ids db = referenced_ids (unique_ids ids) (
    member_ids_of "Relation" (outside_relations ids db.current_relations)
      db.current_relation_members)

-- The relations to exclude from the deletion, with the children added that have the flag if-unused.
unfoldable pub extend_deletion_block_to_relation_children :
    List ℕ → List ℕ → List ℕ → Database → Option (List ℕ)
unfolding collect_recursive_relation_rel_member_ids referenced_ids unique_ids
extend_deletion_block_to_relation_children direct_relation_ids [] excluded db = some excluded
extend_deletion_block_to_relation_children direct_relation_ids (i ∷ is) excluded db =
    elim (collect_recursive_relation_rel_member_ids direct_relation_ids db) [
      | none ↦ none
      | some children ↦ some (unique_ids (excluded ++ referenced_ids children (i ∷ is)))
    ]

-- The relations left to delete come back.
unfoldable pub remove_blocked_relations_from_deletion_list :
    List ℕ → List RelationT → RelationUpdater → Result (RelationUpdater × List RelationT)
unfolding rows_of_ids without_ids id_to_old_id find assign
remove_blocked_relations_from_deletion_list excluded relations s = do
  let rows = rows_of_ids excluded s.db.current_relations
  guard (length rows == length excluded)
      (server_error "Could not get details about still referenced relations")
  ok (record s { ct = skip_relations relations rows s.ct }, without_ids excluded relations)

-- The relations to be deleted come back; the fuel of the collection does not run out.
unfoldable pub is_relation_still_referenced :
    List RelationT → RelationUpdater → Result (RelationUpdater × List RelationT)
unfolding used_outside excluded_ids ids_with_flag extend_deletion_block_to_relation_children
    remove_blocked_relations_from_deletion_list
is_relation_still_referenced relations s =
    let direct_relation_ids = used_outside (ids_of relations) s.db in
    let with_flag = ids_with_flag true relations in
    do
      direct ←
          excluded_ids (precondition_failed "The relation {:d} is used in relations {}.") with_flag
            (ids_with_flag false relations) direct_relation_ids
      elim (extend_deletion_block_to_relation_children direct_relation_ids with_flag direct s.db) [
        | none ↦ err (runtime_error "out of fuel")
        | some excluded ↦ remove_blocked_relations_from_deletion_list excluded relations s
      ]
