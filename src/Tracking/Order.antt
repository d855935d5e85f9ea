-- ===== src/Tracking/Order.antt =====
-- The answer to an upload lists the objects in the order of the message.
use openstreetmap_cgimap.Prelude.{
  ℕ, ◌≡◌, refl, ap, ap₂, Bool, false, Option, none, some, List, [], ◌∷◌, map, arith, ℕ-Eq,
  String-Eq,
}
use openstreetmap_cgimap.Prelude.Int.{ℤ, ℤ-Eq}
use openstreetmap_cgimap.StdMap.{find_first_key}
use openstreetmap_cgimap.Types.{
  ok, >>=-eq-ok, ok-injective, Operation, op_undefined, op_create, op_modify, op_delete, ObjectType,
  ObjectType-Eq, Pair-Eq,
}
use openstreetmap_cgimap.Tracking.{
  ObjectIdMapping, OsmChange, DiffResult, OsmChangeTracking, mapped_row, delete_row, diff_row,
  diff_rows, assemble_diffresult,
}
use openstreetmap_cgimap.Tracking.Lookup.{
  old_id_of, edition_of, created_ids, modified_ids, skip_deleted_ids, find-map_create_ids,
  find-map_modify_ids, find-map_skip_delete_ids,
}

-- What a row and an element of the message have in common: operation, type and old id.
abbrev pub row_heading : DiffResult → Operation × ObjectType × ℤ
row_heading row = (row.op, row.obj_type, row.old_id)

abbrev pub item_heading : OsmChange → Operation × ObjectType × ℤ
item_heading item = (item.op, item.obj_type, item.orig_id)

mapped_row_heading :
    (item : OsmChange) (skipped : Bool) (found : Option ObjectIdMapping) {row : DiffResult}
    → ((m : ObjectIdMapping) → found ≡ some m → m.old_id ≡ item.orig_id)
    → mapped_row item skipped found ≡ ok row
    → row_heading row ≡ item_heading item
mapped_row_heading item skipped none same h = cc
mapped_row_heading item skipped (some m) same h = ground (arith, same m refl)

delete_row_heading :
    (item : OsmChange) (found : Option ObjectIdMapping) (deleted : Bool) {row : DiffResult}
    → ((m : ObjectIdMapping) → found ≡ some m → m.old_id ≡ item.orig_id)
    → delete_row item found deleted ≡ ok row
    → row_heading row ≡ item_heading item
delete_row_heading item none deleted same h = ground arith
delete_row_heading item (some m) deleted same h = ground (arith, same m refl)

diff_row_heading :
    (ct : OsmChangeTracking) (op : Operation) (item : OsmChange) {row : DiffResult}
    → diff_row ct op item ≡ ok row
    → row_heading row ≡ item_heading item
unfolding diff_row
diff_row_heading ct op_create item h =
    mapped_row_heading item false _
      (λ m e.
        find_first_key old_id_of item.orig_id (created_ids ct item.obj_type)
          (rw find-map_create_ids at e))
      h
diff_row_heading ct op_modify item h =
    mapped_row_heading item false _
      (λ m e.
        ap (λ (p : ℤ × ℕ). p.0)
          (find_first_key edition_of _ (modified_ids ct item.obj_type)
            (rw find-map_modify_ids at e)))
      h
diff_row_heading ct op_delete item h =
    delete_row_heading item _ _
      (λ m e.
        find_first_key old_id_of item.orig_id (skip_deleted_ids ct item.obj_type)
          (rw find-map_skip_delete_ids at e))
      h
diff_row_heading ct op_undefined item h = cc

diff_rows_heading :
    (ct : OsmChangeTracking) (items : List OsmChange) (rows : List DiffResult)
    → diff_rows ct items ≡ ok rows
    → map row_heading rows ≡ map item_heading items
unfolding diff_rows
diff_rows_heading ct [] rows h = rw (← ok-injective h)
diff_rows_heading ct (item ∷ items) rows h =
    let (row, e, h') = >>=-eq-ok (diff_row ct item.op item) _ h in
    let (rest, e', h'') = >>=-eq-ok (diff_rows ct items) _ h' in
    rw (← ok-injective h'')
      (ap₂ ◌∷◌ (diff_row_heading ct item.op item e) (diff_rows_heading ct items rest e'))

-- When the answer is assembled, its rows name the same operations on the same objects as the
-- elements of the message, one for one and in the same order.
pub assemble_diffresult-order :
    (ct : OsmChangeTracking) (rows : List DiffResult)
    → assemble_diffresult ct ≡ ok rows
    → map row_heading rows ≡ map item_heading ct.osmchange_orig_sequence
unfolding assemble_diffresult
assemble_diffresult-order ct rows h = diff_rows_heading ct ct.osmchange_orig_sequence rows h
