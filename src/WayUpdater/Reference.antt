-- ===== src/WayUpdater/Reference.antt =====
-- way_updater.cpp: the ways that a deletion with if-unused leaves alone.
use openstreetmap_cgimap.NodeUpdater.Tables.{unique_ids}
use openstreetmap_cgimap.Prelude.{ℕ, true, false, List, ◌++◌, ◌==◌, ℕ-Eq, String-Eq, length}
use openstreetmap_cgimap.Prelude.Int.{ℤ-Eq}
use openstreetmap_cgimap.StdMap.{find, assign}
use openstreetmap_cgimap.Types.{
  gone, precondition_failed, server_error, Result, ok, ◌>>=◌, ◌>>◌, guard, ObjectType-Eq, Pair-Eq,
}
use openstreetmap_cgimap.Element.{rows_of_ids, ids_of, id_to_old_id}
use openstreetmap_cgimap.Element.Deletion.{
  already_deleted_items, skipped, ids_with_flag, without_ids,
}
use openstreetmap_cgimap.NodeUpdater.Reference.{referenced_ids, excluded_ids}
use openstreetmap_cgimap.WayUpdater.{WayT, WayUpdater}
use openstreetmap_cgimap.Database.{ElementRow, member_ids}
use openstreetmap_cgimap.Tracking.{OsmChangeTracking}

abbrev pub skip_ways : List WayT → List ElementRow → OsmChangeTracking → OsmChangeTracking
skip_ways ways rows ct = record ct {
  skip_deleted_way_ids = ct.skip_deleted_way_ids ++ skipped ways rows;
}

-- The ids of the ways that are deleted already come back.
unfoldable pub determine_already_deleted_ways :
    List WayT → WayUpdater → Result (WayUpdater × List ℕ)
unfolding already_deleted_items id_to_old_id find assign
determine_already_deleted_ways ways s = do
  (ids, reported) ←
      already_deleted_items (gone "The way with the id {:d} has already been deleted") ways
        s.db.current_ways
  ok (record s { ct = skip_ways ways reported s.ct }, ids)

-- The ways to be deleted come back.
unfoldable pub is_way_still_referenced : List WayT → WayUpdater → Result (WayUpdater × List WayT)
unfolding member_ids referenced_ids excluded_ids without_ids ids_with_flag unique_ids rows_of_ids
    id_to_old_id find assign
is_way_still_referenced ways s = do
  excluded ←
      excluded_ids (precondition_failed "Way {:d} is still used by relations {}.")
        (ids_with_flag true ways) (ids_with_flag false ways)
        (referenced_ids (unique_ids (ids_of ways)) (member_ids "Way" s.db.current_relation_members))
  let rows = rows_of_ids excluded s.db.current_ways
  guard (length rows == length excluded)
      (server_error "Could not get details about still referenced ways")
  ok (record s { ct = skip_ways ways rows s.ct }, without_ids excluded ways)
