-- ===== src/NodeUpdater/Tests.antt =====
use openstreetmap_cgimap.NodeUpdater.Serial.{
  process_modify_nodes-serial, Consecutive, modifications,
}
use openstreetmap_cgimap.NodeUpdater.Resolved.{
  replace_old_ids_in_nodes-resolved, replace_old_ids_in_nodes_iff, resolved, AreDistinct,
  IsResolvable,
}
use openstreetmap_cgimap.NodeUpdater.Versions.{version_of}
use openstreetmap_cgimap.NodeUpdater.Placeholders.{replace_old_ids_in_nodes}
use openstreetmap_cgimap.Tracking.{ObjectIdMapping}
use openstreetmap_cgimap.Prelude.{All, ◌↔◌, ◌+◌, some, arith, length}
use openstreetmap_cgimap.Types.{is_ok}
use openstreetmap_cgimap.Types.{Result, ok, precondition_failed, err}
use openstreetmap_cgimap.Bbox.{undefined_bbox}
use openstreetmap_cgimap.Prelude.Int.{ℤ, pos, negsuc}
use openstreetmap_cgimap.Tracking.{OsmChangeTracking}
use openstreetmap_cgimap.Database.{NodeRow, Database}
use openstreetmap_cgimap.NodeUpdater.{NodeT, NodeUpdater}
use openstreetmap_cgimap.Prelude.{List, map, refl, false, true, ◌≡◌, ◌∷◌, [], ℕ}
use openstreetmap_cgimap.NodeUpdater.Process.{
  updater_calls, process_delete_nodes, process_new_nodes, process_modify_nodes,
}

-- Runs of the node updater at concrete inputs.

abbrev pub empty_tracking : OsmChangeTracking
empty_tracking = record {
  created_node_ids = [];
  created_way_ids = [];
  created_relation_ids = [];
  modified_node_ids = [];
  modified_way_ids = [];
  modified_relation_ids = [];
  deleted_node_ids = [];
  deleted_way_ids = [];
  deleted_relation_ids = [];
  skip_deleted_node_ids = [];
  skip_deleted_way_ids = [];
  skip_deleted_relation_ids = [];
  osmchange_orig_sequence = [];
}

abbrev pub new_node : ℕ → ℕ → ℤ → NodeT
new_node i v old = record {
  id = i;
  version = v;
  lat = pos 10;
  lon = pos 20;
  tile = 7;
  changeset_id = pos 1;
  old_id = old;
  tags = ("a", "b") ∷ [];
  if_unused = false;
}

abbrev pub node_row : ℕ → ℕ → NodeRow
node_row i v = record {
  id = i;
  latitude = pos 1;
  longitude = pos 2;
  changeset_id = pos 9;
  visible = true;
  tile = 0;
  version = v;
}

abbrev pub small_db : Database
small_db = record {
  current_nodes = node_row 1 1 ∷ node_row 2 5 ∷ [];
  nodes = node_row 1 1 ∷ [];
  current_node_tags = record { node_id = 2; k = "x"; v = "y" } ∷ [];
  node_tags = [];
  current_ways = [];
  ways = [];
  current_way_tags = [];
  way_tags = [];
  current_way_nodes = record { way_id = 7; node_id = 1; sequence_id = 1 } ∷ [];
  way_nodes = [];
  current_relations = [];
  relations = [];
  current_relation_tags = [];
  relation_tags = [];
  current_relation_members = [];
  relation_members = [];
  current_nodes_id_seq = 3;
  current_ways_id_seq = 1;
  current_relations_id_seq = 1;
}

abbrev pub start : NodeUpdater
start = record {
  db = small_db;
  ct = empty_tracking;
  m_bbox = undefined_bbox;
  create_nodes = [];
  modify_nodes = [];
  delete_nodes = [];
  create_placeholder_ids = [];
}

abbrev versions : Result NodeUpdater → List (ℕ × ℕ)
versions (err e) = []
versions (ok s) = map (λ r. (r.id, r.version)) s.db.current_nodes

abbrev created_ids : Result NodeUpdater → List (ℤ × ℕ)
created_ids (err e) = []
created_ids (ok s) = map (λ m. (m.old_id, m.new_id)) s.ct.created_node_ids

abbrev pub with_modify : List NodeT → NodeUpdater
with_modify nodes = record start { modify_nodes = nodes }

abbrev pub with_create : List NodeT → NodeUpdater
with_create nodes = record start { create_nodes = nodes }

abbrev pub with_delete : List NodeT → NodeUpdater
with_delete nodes = record start { delete_nodes = nodes }

-- Two new versions of node 2 in one block, and one of node 1.
modified_twice :
    versions (
      process_modify_nodes
        (with_modify (new_node 2 5 (pos 2) ∷ new_node 1 1 (pos 1) ∷ new_node 2 6 (pos 2) ∷ [])))
    ≡ (1, 2) ∷ (2, 7) ∷ []
unfolding updater_calls
modified_twice = refl

created :
    created_ids
      (process_new_nodes (with_create (new_node 0 1 (negsuc 0) ∷ new_node 0 1 (negsuc 4) ∷ [])))
    ≡ (negsuc 0, 3) ∷ (negsuc 4, 4) ∷ []
unfolding updater_calls
created = refl

-- Node 1 is still used by a way, so it is not deleted.
deleted_in_use :
    process_delete_nodes (record start { delete_nodes = new_node 1 1 (pos 1) ∷ [] })
    ≡ err (precondition_failed "Node {:d} is still used by ways {}.")
unfolding updater_calls
deleted_in_use = refl

abbrev blocks : List NodeT
blocks = new_node 2 5 (pos 2) ∷ new_node 1 1 (pos 1) ∷ new_node 2 6 (pos 2) ∷ []

abbrev or_start : Result NodeUpdater → NodeUpdater
or_start (ok s) = s
or_start (err e) = start

-- The state after `blocks`.
abbrev after : NodeUpdater
unfolding process_modify_nodes
after = or_start (process_modify_nodes (with_modify blocks))

goes_through : process_modify_nodes (with_modify blocks) ≡ ok after
unfolding updater_calls
goes_through = refl

no_placeholders : replace_old_ids_in_nodes blocks [] ≡ ok blocks
unfolding replace_old_ids_in_nodes
no_placeholders = refl

process_modify_nodes-serial_example :
    Consecutive 5 (modifications 2 blocks)
    × (version_of 2 after.db.current_nodes ≡ some (5 + length (modifications 2 blocks)))
process_modify_nodes-serial_example =
    process_modify_nodes-serial (with_modify blocks) after blocks 2 5 goes_through no_placeholders
      (omega arith) refl

abbrev one_created : List ObjectIdMapping
one_created = record { old_id = negsuc 0; new_id = 3; new_version = 1 } ∷ []

abbrev placeholder_node : NodeT
placeholder_node = new_node 0 1 (negsuc 0)

replaced :
    replace_old_ids_in_nodes (placeholder_node ∷ []) one_created
    ≡ ok (record placeholder_node { id = 3 } ∷ [])
unfolding replace_old_ids_in_nodes
replaced = refl

replace_old_ids_in_nodes-resolved_example :
    record placeholder_node { id = 3 } ∷ [] ≡ map (resolved one_created) (placeholder_node ∷ [])
replace_old_ids_in_nodes-resolved_example =
    replace_old_ids_in_nodes-resolved (placeholder_node ∷ []) one_created
      (record placeholder_node { id = 3 } ∷ []) replaced

replace_old_ids_in_nodes_iff_example :
    (is_ok (replace_old_ids_in_nodes (placeholder_node ∷ []) one_created) ≡ true)
    ↔ (AreDistinct one_created × All (IsResolvable one_created) (placeholder_node ∷ []))
replace_old_ids_in_nodes_iff_example =
    replace_old_ids_in_nodes_iff (placeholder_node ∷ []) one_created
