-- ===== src/Tracking/Complete.antt =====
-- Which uploads get an answer: those whose every element was processed.
use openstreetmap_cgimap.Prelude.{
  ◌+◌, ◌%◌, ◌^◌, ◌≡◌, ◌↔◌, ◌⊎◌, true, List, [], ◌∷◌, arith, ℕ-Eq, String-Eq, All, Any,
}
use openstreetmap_cgimap.Prelude.Int.{ℤ, ℤ-Eq}
use openstreetmap_cgimap.StdMap.{find_first_iff}
use openstreetmap_cgimap.Types.{
  is_ok, Operation, op_undefined, op_create, op_modify, op_delete, ObjectType-Eq, Pair-Eq,
}
use openstreetmap_cgimap.Tracking.{
  OsmChange, OsmChangeTracking, diff_row, diff_rows, assemble_diffresult,
}
use openstreetmap_cgimap.Tracking.Lookup.{
  old_id_of, edition_of, created_ids, modified_ids, skip_deleted_ids, deleted_ids,
  find-map_create_ids, find-map_modify_ids, find-map_skip_delete_ids, contains-set_delete_ids,
}

-- One of the lists of the tracking object has an entry for the element: a created object under
-- its old id, a modified one under its old id with the version one higher, a deleted id, or,
-- with if-unused, an object whose deletion was skipped.
abbrev pub HasEntry : OsmChangeTracking → Operation → OsmChange → Type 0
HasEntry ct op_create item = Any (λ m. item.orig_id ≡ m.old_id) (created_ids ct item.obj_type)
HasEntry ct op_modify item =
    Any (λ m. (item.orig_id, (item.orig_version + 1) % 2 ^ 32) ≡ edition_of m)
      (modified_ids ct item.obj_type)
HasEntry ct op_delete item =
    Any (λ i. item.orig_id ≡ i) (deleted_ids ct item.obj_type)
    ⊎ ((item.if_unused ≡ true)
        × Any (λ m. item.orig_id ≡ m.old_id) (skip_deleted_ids ct item.obj_type))
HasEntry ct op_undefined item = ⊥

abbrev pub IsProcessed : OsmChangeTracking → OsmChange → Type 0
IsProcessed ct item = HasEntry ct item.op item

diff_row_iff :
    (ct : OsmChangeTracking) (op : Operation) (item : OsmChange)
    → (is_ok (diff_row ct op item) ≡ true) ↔ HasEntry ct op item
unfolding diff_row
diff_row_iff ct op_create item =
    rw find-map_create_ids
      (ground (arith, find_first_iff old_id_of item.orig_id (created_ids ct item.obj_type)))
diff_row_iff ct op_modify item = rw find-map_modify_ids (
    ground (
      arith,
      find_first_iff edition_of (item.orig_id, (item.orig_version + 1) % 2 ^ 32)
          (modified_ids ct item.obj_type),
    ))
diff_row_iff ct op_delete item =
    rw (find-map_skip_delete_ids, contains-set_delete_ids)
      (ground (
        arith,
        find_first_iff old_id_of item.orig_id (skip_deleted_ids ct item.obj_type),
        find_first_iff (λ (i : ℤ). i) item.orig_id (deleted_ids ct item.obj_type),
      ))
diff_row_iff ct op_undefined item = ground arith

diff_rows_iff :
    (ct : OsmChangeTracking) (items : List OsmChange)
    → (is_ok (diff_rows ct items) ≡ true) ↔ All (IsProcessed ct) items
unfolding diff_rows
diff_rows_iff ct [] = ground arith
diff_rows_iff ct (item ∷ items) =
    ground (arith, diff_row_iff ct item.op item, diff_rows_iff ct items)

-- The answer is assembled exactly when every element of the message has been processed.
pub assemble_diffresult-IsProcessed :
    (ct : OsmChangeTracking)
    → (is_ok (assemble_diffresult ct) ≡ true) ↔ All (IsProcessed ct) ct.osmchange_orig_sequence
unfolding assemble_diffresult
assemble_diffresult-IsProcessed ct = diff_rows_iff ct ct.osmchange_orig_sequence
