-- ===== src/Tracking/Tests.antt =====
-- The answer to a concrete upload.
use openstreetmap_cgimap.StdMap.{find, insert, insert_all}
use openstreetmap_cgimap.Tracking.{
  diff_row, map_modify_ids, map_create_ids, map_skip_delete_ids, set_delete_ids,
}
use openstreetmap_cgimap.Prelude.{
  ◌≡◌, refl, ◌↔◌, true, false, List, [], ◌∷◌, map, ℕ-Eq, String-Eq, All,
}
use openstreetmap_cgimap.Prelude.Int.{pos, negsuc, ℤ-Eq}
use openstreetmap_cgimap.StdMap.{find, insert, insert_all}
use openstreetmap_cgimap.Types.{
  Result, ok, err, is_ok, op_create, op_modify, op_delete, node, way, ObjectType-Eq, Pair-Eq,
}
use openstreetmap_cgimap.Tracking.{OsmChangeTracking, DiffResult, assemble_diffresult}
use openstreetmap_cgimap.Tracking.Order.{row_heading, item_heading, assemble_diffresult-order}
use openstreetmap_cgimap.Tracking.Complete.{IsProcessed, assemble_diffresult-IsProcessed}

abbrev upload : OsmChangeTracking
upload = record {
  created_node_ids = record { old_id = negsuc 0; new_id = 30; new_version = 1 } ∷ [];
  created_way_ids = [];
  created_relation_ids = [];
  modified_node_ids = [];
  modified_way_ids = record { old_id = pos 8; new_id = 8; new_version = 5 } ∷ [];
  modified_relation_ids = [];
  deleted_node_ids = pos 9 ∷ [];
  deleted_way_ids = [];
  deleted_relation_ids = [];
  skip_deleted_node_ids = [];
  skip_deleted_way_ids = [];
  skip_deleted_relation_ids = [];
  osmchange_orig_sequence =
      record {
        op = op_modify;
        obj_type = way;
        orig_id = pos 8;
        orig_version = 4;
        if_unused = false;
      }
      ∷ record {
        op = op_create;
        obj_type = node;
        orig_id = negsuc 0;
        orig_version = 0;
        if_unused = false;
      }
      ∷ record {
        op = op_delete;
        obj_type = node;
        orig_id = pos 9;
        orig_version = 2;
        if_unused = false;
      }
      ∷ [];
}

abbrev rows_or_none : Result (List DiffResult) → List DiffResult
rows_or_none (ok rows) = rows
rows_or_none (err e) = []

abbrev answer : List DiffResult
answer =
    record {
      op = op_modify;
      obj_type = way;
      old_id = pos 8;
      new_id = 8;
      new_version = 5;
      deletion_skipped = false;
    }
    ∷ record {
      op = op_create;
      obj_type = node;
      old_id = negsuc 0;
      new_id = 30;
      new_version = 1;
      deletion_skipped = false;
    }
    ∷ record {
      op = op_delete;
      obj_type = node;
      old_id = pos 9;
      new_id = 0;
      new_version = 0;
      deletion_skipped = false;
    }
    ∷ []

assembled : assemble_diffresult upload ≡ ok answer
unfolding assemble_diffresult diff_row find map_modify_ids insert_all insert map_create_ids
    map_skip_delete_ids set_delete_ids
assembled = refl

assemble_diffresult-order_example :
    map row_heading answer ≡ map item_heading upload.osmchange_orig_sequence
assemble_diffresult-order_example = assemble_diffresult-order upload answer assembled

assemble_diffresult-IsProcessed_example :
    (is_ok (assemble_diffresult upload) ≡ true)
    ↔ All (IsProcessed upload) upload.osmchange_orig_sequence
assemble_diffresult-IsProcessed_example = assemble_diffresult-IsProcessed upload
