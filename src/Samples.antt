-- ===== src/Samples.antt =====
-- A small database and updaters with empty buffers, for the modules called Tests.
use openstreetmap_cgimap.Prelude.{none, ℕ, ◌+◌, String, Bool, true, List, [], ◌∷◌, ℕ-Eq, String-Eq}
use openstreetmap_cgimap.Prelude.Int.{pos, ℤ-Eq}
use openstreetmap_cgimap.Types.{ObjectType-Eq, Pair-Eq}
use openstreetmap_cgimap.Database.{Database, NodeRow, ElementRow, CurrentMember}
use openstreetmap_cgimap.Tracking.{OsmChangeTracking}
use openstreetmap_cgimap.Bbox.{undefined_bbox}
use openstreetmap_cgimap.NodeUpdater.{NodeUpdater}
use openstreetmap_cgimap.WayUpdater.{WayUpdater}
use openstreetmap_cgimap.RelationUpdater.{RelationUpdater}
use openstreetmap_cgimap.Element.{ItemT}
use openstreetmap_cgimap.Changeset.{ChangesetRow, ChangesetUpdater, ChangesetSettings, no_stats}
use openstreetmap_cgimap.Upload.{Upload}

abbrev pub no_tracking : OsmChangeTracking
no_tracking = record {
  created_node_ids = [];
  created_way_ids = [];
  created_relation_ids = [];
  modified_node_ids = [];
  modified_way_ids = [];
  modified_relation_ids = [];
  deleted_node_ids = [];
  deleted_way_ids = [];
  deleted_relation_ids = [];
  skip_deleted_node_ids = [];
  skip_deleted_way_ids = [];
  skip_deleted_relation_ids = [];
  osmchange_orig_sequence = [];
}

abbrev a_node : ℕ → ℕ → NodeRow
a_node i v = record {
  id = i;
  latitude = pos i;
  longitude = pos (10 + i);
  changeset_id = pos 9;
  visible = true;
  tile = 0;
  version = v;
}

abbrev a_row : ℕ → ℕ → ElementRow
a_row i v = record { id = i; changeset_id = pos 9; visible = true; version = v }

abbrev a_member : ℕ → String → ℕ → CurrentMember
a_member parent type i = record {
  relation_id = parent;
  member_type = type;
  member_id = i;
  member_role = "";
  sequence_id = 1;
}

-- Way 7 has the nodes 1 and 2, relation 9 the node 1 and the way 7; relation 9 is a member of
-- relation 10, and relation 10 of relation 11.
abbrev pub sample_db : Database
sample_db = record {
  current_nodes = a_node 1 1 ∷ a_node 2 5 ∷ a_node 3 1 ∷ [];
  nodes = [];
  current_node_tags = [];
  node_tags = [];
  current_ways = a_row 7 2 ∷ a_row 8 1 ∷ [];
  ways = [];
  current_way_tags = record { element_id = 7; k = "a"; v = "b" } ∷ [];
  way_tags = [];
  current_way_nodes =
      record { way_id = 7; node_id = 1; sequence_id = 1 }
      ∷ record { way_id = 7; node_id = 2; sequence_id = 2 }
      ∷ [];
  way_nodes = [];
  current_relations = a_row 9 1 ∷ a_row 10 1 ∷ a_row 11 1 ∷ [];
  relations = [];
  current_relation_tags = [];
  relation_tags = [];
  current_relation_members =
      a_member 9 "Node" 1
      ∷ a_member 9 "Way" 7
      ∷ a_member 10 "Relation" 9
      ∷ a_member 11 "Relation" 10
      ∷ [];
  relation_members = [];
  current_nodes_id_seq = 4;
  current_ways_id_seq = 9;
  current_relations_id_seq = 12;
}

abbrev pub sample_nodes : NodeUpdater
sample_nodes = record {
  db = sample_db;
  ct = no_tracking;
  m_bbox = undefined_bbox;
  create_nodes = [];
  modify_nodes = [];
  delete_nodes = [];
  create_placeholder_ids = [];
}

abbrev pub sample_ways : WayUpdater
sample_ways = record {
  db = sample_db;
  ct = no_tracking;
  m_bbox = undefined_bbox;
  create_ways = [];
  modify_ways = [];
  delete_ways = [];
  create_placeholder_ids = [];
}

abbrev pub sample_relations : RelationUpdater
sample_relations = record {
  db = sample_db;
  ct = no_tracking;
  m_bbox = undefined_bbox;
  create_relations = [];
  modify_relations = [];
  delete_relations = [];
  create_placeholder_ids = [];
}

abbrev pub sample_upload : Upload
sample_upload = record {
  db = sample_db;
  change_tracking = no_tracking;
  node_updater = sample_nodes;
  way_updater = sample_ways;
  relation_updater = sample_relations;
}

-- A new version of a way or of a relation.
abbrev pub an_item : {M : Type 0} → ℕ → ℕ → List M → Bool → ItemT M
an_item i v members if_unused = record {
  id = i;
  version = v;
  changeset_id = pos 1;
  old_id = pos i;
  tags = [];
  members = members;
  if_unused = if_unused;
}

-- An open changeset of the user 5.
abbrev pub sample_changeset : ChangesetRow
sample_changeset = record {
  id = 1;
  user_id = 5;
  created_at = 1000;
  closed_at = 4600;
  bbox = none;
  num_changes = 4;
  stats = no_stats;
}

abbrev pub sample_changesets : ChangesetUpdater
sample_changesets = record {
  changesets = sample_changeset ∷ [];
  changeset_tags = [];
  changesets_subscribers = [];
  users = record { id = 5; changesets_count = none } ∷ [];
  changesets_id_seq = 2;
  now = 2000;
  user_id = 5;
  changeset = 1;
  cs_num_changes = 0;
  cs_bbox = undefined_bbox;
}

abbrev pub sample_settings : ChangesetSettings
sample_settings = record {
  max_elements = 10;
  timeout_idle = 3600;
  timeout_open_max = 86400;
  enhanced_stats = true;
}
