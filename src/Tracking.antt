-- ===== src/Tracking.antt =====
-- src/api06/changeset_upload/osmchange_tracking.cpp and osmchange_tracking.hpp: what an upload
-- has done to which object, and the answer that is assembled from it.
pub mod Lookup
pub mod Order
pub mod Complete
mod Tests
use openstreetmap_cgimap.Prelude.{
  ℕ, zero, suc, ◌+◌, ◌-◌, ◌*◌, ◌/◌, ◌%◌, ◌^◌, ◌≤◌, ◌<◌, String, ◌≡◌, refl, sym, ap, ap₂, ◌∙◌, ◌≢◌,
  ◌↔◌, ◌⊎◌, inl, inr, Bool, true, false, not, ◌&&◌, ◌||◌, Option, none, some, List, [], ◌∷◌, ◌++◌,
  map, arith, ltb, leb, eqb, if◌then◌else◌, eqb_iff, Eq, ◌==◌, ==_refl, ℕ-Eq, String-Eq, Bool-cases,
  Option-cases, length, get_elem?, length-append, All,
}
use openstreetmap_cgimap.Prelude.Int.{
  ℤ, pos, negsuc, pos_part, neg_part, ◌+ℤ◌, ◌-ℤ◌, ◌*ℤ◌, ◌≤ℤ◌, ltb_ℤ, eqb_ℤ, eqb_ℤ_iff, ℤ-Eq,
  int_laws, IsInt64, to_uint64, to_int64, to_int64-to_uint64,
}
use openstreetmap_cgimap.StdMap.{
  StdMap, find, contains, insert, assign, insert_all, find-insert, find-assign, find-insert_all,
}
use openstreetmap_cgimap.Types.{
  Error, runtime_error, Result, ok, err, ◌>>=◌, Operation, op_undefined, op_create, op_modify,
  op_delete, ObjectType, node, way, relation, ObjectType-Eq, Pair-Eq, ObjectKey, EditionKey,
}

-- struct object_id_mapping_t
pub record ObjectIdMapping : Type 0 where
  pub old_id : ℤ
  pub new_id : ℕ
  pub new_version : ℕ

-- struct osmchange_t
pub record OsmChange : Type 0 where
  pub op : Operation
  pub obj_type : ObjectType
  pub orig_id : ℤ
  pub orig_version : ℕ
  pub if_unused : Bool

-- struct diffresult_t
pub record DiffResult : Type 0 where
  pub op : Operation
  pub obj_type : ObjectType
  pub old_id : ℤ
  pub new_id : ℕ
  pub new_version : ℕ
  pub deletion_skipped : Bool

-- class OSMChange_Tracking
pub record OsmChangeTracking : Type 0 where
  pub created_node_ids : List ObjectIdMapping
  pub created_way_ids : List ObjectIdMapping
  pub created_relation_ids : List ObjectIdMapping
  pub modified_node_ids : List ObjectIdMapping
  pub modified_way_ids : List ObjectIdMapping
  pub modified_relation_ids : List ObjectIdMapping
  pub deleted_node_ids : List ℤ
  pub deleted_way_ids : List ℤ
  pub deleted_relation_ids : List ℤ
  pub skip_deleted_node_ids : List ObjectIdMapping
  pub skip_deleted_way_ids : List ObjectIdMapping
  pub skip_deleted_relation_ids : List ObjectIdMapping
  pub osmchange_orig_sequence : List OsmChange

abbrev pub id_key : ObjectType → ObjectIdMapping → ObjectKey
id_key t m = (t, m.old_id)

abbrev pub version_key : ObjectType → ObjectIdMapping → EditionKey
version_key t m = (t, (m.old_id, m.new_version))

abbrev pub self : ObjectIdMapping → ObjectIdMapping
self m = m

abbrev pub present : ℤ → Unit {0}
present _ = tt

unfoldable pub map_create_ids : OsmChangeTracking → StdMap ObjectKey ObjectIdMapping
map_create_ids ct = insert_all (id_key relation) self ct.created_relation_ids (
    insert_all (id_key way) self ct.created_way_ids
      (insert_all (id_key node) self ct.created_node_ids []))

unfoldable pub map_modify_ids : OsmChangeTracking → StdMap EditionKey ObjectIdMapping
map_modify_ids ct = insert_all (version_key relation) self ct.modified_relation_ids (
    insert_all (version_key way) self ct.modified_way_ids
      (insert_all (version_key node) self ct.modified_node_ids []))

unfoldable pub map_skip_delete_ids : OsmChangeTracking → StdMap ObjectKey ObjectIdMapping
map_skip_delete_ids ct = insert_all (id_key relation) self ct.skip_deleted_relation_ids (
    insert_all (id_key way) self ct.skip_deleted_way_ids
      (insert_all (id_key node) self ct.skip_deleted_node_ids []))

-- A `std::set`, as a map to the unit type.
unfoldable pub set_delete_ids : OsmChangeTracking → StdMap ObjectKey (Unit {0})
set_delete_ids ct =
    insert_all (λ i. (relation, i)) present ct.deleted_relation_ids
      (insert_all (λ i. (way, i)) present ct.deleted_way_ids
        (insert_all (λ i. (node, i)) present ct.deleted_node_ids []))

abbrev pub not_processed : Error
not_processed = runtime_error "Element in osmChange message was not processed"

abbrev pub unexpected_operation : Error
unexpected_operation =
    runtime_error "Unexpected operation in original sequence mapping. This should not happen!"

-- The row of an object that has an entry in one of the maps.
abbrev pub mapped_row : OsmChange → Bool → Option ObjectIdMapping → Result DiffResult
mapped_row item skipped none = err not_processed
mapped_row item skipped (some id) = ok (record {
  op = item.op;
  obj_type = item.obj_type;
  old_id = id.old_id;
  new_id = id.new_id;
  new_version = id.new_version;
  deletion_skipped = skipped;
})

-- The row of a deleted object; the fields that are not set are zero.
abbrev pub deleted_row : OsmChange → Bool → Result DiffResult
deleted_row item false = err not_processed
deleted_row item true = ok (record {
  op = item.op;
  obj_type = item.obj_type;
  old_id = item.orig_id;
  new_id = 0;
  new_version = 0;
  deletion_skipped = false;
})

-- `if (item.if_unused)`, with the result of the look-up among the skipped objects.
abbrev pub delete_row : OsmChange → Option ObjectIdMapping → Bool → Result DiffResult
delete_row item none deleted = deleted_row item deleted
delete_row item (some id) deleted =
    if item.if_unused then mapped_row item true (some id) else deleted_row item deleted

-- The `switch (item.op)` for one element of the message.
unfoldable pub diff_row : OsmChangeTracking → Operation → OsmChange → Result DiffResult
diff_row ct op_create item =
    mapped_row item false (find (item.obj_type, item.orig_id) (map_create_ids ct))
diff_row ct op_modify item =
    mapped_row item false
      (find (item.obj_type, (item.orig_id, (item.orig_version + 1) % 2 ^ 32)) (map_modify_ids ct))
diff_row ct op_delete item =
    delete_row item (find (item.obj_type, item.orig_id) (map_skip_delete_ids ct))
      (contains (item.obj_type, item.orig_id) (set_delete_ids ct))
diff_row ct op_undefined item = err unexpected_operation

-- The loop over the original sequence.
unfoldable pub diff_rows : OsmChangeTracking → List OsmChange → Result (List DiffResult)
diff_rows ct [] = ok []
diff_rows ct (item ∷ items) = do
  row ← diff_row ct item.op item
  rows ← diff_rows ct items
  ok (row ∷ rows)

unfoldable pub assemble_diffresult : OsmChangeTracking → Result (List DiffResult)
unfolding diff_rows
assemble_diffresult ct = diff_rows ct ct.osmchange_orig_sequence
