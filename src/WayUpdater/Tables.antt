-- ===== src/WayUpdater/Tables.antt =====
-- way_updater.cpp: the statements that change or check the tables of ways, their tags and nodes.
use openstreetmap_cgimap.Prelude.{
  ℕ, ◌+◌, Bool, none, some, List, [], ◌∷◌, ◌++◌, map, eqb, if◌then◌else◌, ◌==◌, ℕ-Eq, String-Eq,
  length,
}
use openstreetmap_cgimap.Prelude.Int.{ℤ-Eq}
use openstreetmap_cgimap.StdMap.{find, assign}
use openstreetmap_cgimap.Types.{
  not_found, conflict, precondition_failed, server_error, Result, ok, ◌>>◌, guard, ObjectType-Eq,
  Pair-Eq,
}
use openstreetmap_cgimap.Element.{
  rows_of_ids, row_ids, missing_from, none_missing, ids_mapping, insert_op, check_versions,
  update_rows, returned_rows, id_to_old_id, returned_mapping,
}
use openstreetmap_cgimap.Element.Tags.{all_tag_rows, tag_ids, without_tags, history_tags}
use openstreetmap_cgimap.NodeUpdater.Tables.{mem_id, old_id_at, unique_ids, rows_with_ids}
use openstreetmap_cgimap.NodeUpdater.Reference.{rows_bbox}
use openstreetmap_cgimap.Bbox.{BboxT, undefined_bbox}
use openstreetmap_cgimap.WayUpdater.{WayNodeT, WayT, WayUpdater}
use openstreetmap_cgimap.Database.{ElementRow, CurrentWayNode, WayNodeRow, NodeRow}

unfoldable pub insert_new_ways_to_current_table : List WayT → WayUpdater → Result WayUpdater
unfolding ids_mapping insert_op
insert_new_ways_to_current_table ways s =
    let r = ids_mapping s.db.current_ways_id_seq ways in
    do
      guard (length r == length ways)
          (server_error "Could not create all new ways in current table")
      ok (record s {
        db = record (s.db) {
          current_ways = s.db.current_ways ++ insert_op r ways;
          current_ways_id_seq = s.db.current_ways_id_seq + length ways;
        };
        ct = record (s.ct) { created_way_ids = s.ct.created_way_ids ++ r };
      })

-- The nodes of the ways with the ids of a list.
unfoldable pub nodes_of_ways : List ℕ → List CurrentWayNode → List ℕ
nodes_of_ways way_ids [] = []
nodes_of_ways way_ids (wn ∷ wns) =
    if mem_id wn.way_id way_ids
    then wn.node_id ∷ nodes_of_ways way_ids wns
    else nodes_of_ways way_ids wns

-- `MIN` and `MAX` over the join of nodes, way nodes and ways.
unfoldable pub calc_way_bbox : List ℕ → WayUpdater → BboxT
unfolding nodes_of_ways rows_of_ids rows_with_ids rows_bbox
calc_way_bbox ids s =
    let way_ids = row_ids (rows_of_ids ids s.db.current_ways) in
    let node_ids = nodes_of_ways way_ids s.db.current_way_nodes in
    elim (rows_bbox (rows_with_ids node_ids s.db.current_nodes)) [
      | none ↦ undefined_bbox
      | some b ↦ b
    ]

unfoldable pub lock_current_ways : List ℕ → WayUpdater → Result (Unit {0})
unfolding missing_from
lock_current_ways ids s =
    none_missing (not_found "The following way ids are unknown: {}")
      (missing_from ids (row_ids s.db.current_ways))

unfoldable pub check_current_way_versions : List WayT → WayUpdater → Result (Unit {0})
unfolding check_versions
check_current_way_versions ways s =
    check_versions (conflict "Version mismatch: Provided {:d}, server had: {:d} of Way {:d}") ways
      s.db.current_ways

-- `SELECT id FROM current_nodes WHERE visible = true`
unfoldable pub visible_node_ids : List NodeRow → List ℕ
visible_node_ids [] = []
visible_node_ids (r ∷ rs) = if r.visible then r.id ∷ visible_node_ids rs else visible_node_ids rs

-- The loops that collect the ids of the nodes.
unfoldable pub future_node_ids : List WayT → List ℕ
future_node_ids [] = []
future_node_ids (w ∷ ways) = map (λ (wn : WayNodeT). wn.node_id) w.members ++ future_node_ids ways

unfoldable pub lock_future_nodes : List WayT → WayUpdater → Result (Unit {0})
unfolding missing_from visible_node_ids future_node_ids unique_ids
lock_future_nodes ways s =
    none_missing
      (precondition_failed
        "Way {:d} requires the nodes with id in {}, which either do not exist, or are not visible.")
      (missing_from (unique_ids (future_node_ids ways)) (visible_node_ids s.db.current_nodes))

unfoldable pub update_current_ways : List WayT → Bool → WayUpdater → Result WayUpdater
unfolding update_rows returned_rows id_to_old_id find assign
update_current_ways [] visible s = ok s
update_current_ways (w ∷ ws) visible s =
    let r = returned_rows visible (w ∷ ws) s.db.current_ways in
    let m = id_to_old_id (w ∷ ws) [] in
    do
      guard (length r == length (w ∷ ws)) (server_error "Could not update all current ways")
      ok (record s {
        db = record (s.db) { current_ways = update_rows visible (w ∷ ws) s.db.current_ways };
        ct =
            if visible
            then record (s.ct) {
              modified_way_ids = s.ct.modified_way_ids ++ map (returned_mapping m) r;
            }
            else record (s.ct) {
              deleted_way_ids = s.ct.deleted_way_ids ++ map (λ r'. old_id_at m r'.id) r;
            };
      })

-- The new tags, and the ids of the ways that have tags.
unfoldable pub insert_new_current_way_tags : List WayT → WayUpdater → WayUpdater × List ℕ
unfolding all_tag_rows unique_ids
insert_new_current_way_tags ways s =
    let rows = all_tag_rows ways in
    (
      record s { db = record (s.db) { current_way_tags = s.db.current_way_tags ++ rows } },
      unique_ids (tag_ids rows),
    )

-- The rows of the nodes of one way.
unfoldable pub way_node_rows : ℕ → List WayNodeT → List CurrentWayNode
way_node_rows i [] = []
way_node_rows i (wn ∷ wns) =
    record { way_id = i; node_id = wn.node_id; sequence_id = wn.sequence_id } ∷ way_node_rows i wns

unfoldable pub all_way_node_rows : List WayT → List CurrentWayNode
unfolding way_node_rows
all_way_node_rows [] = []
all_way_node_rows (w ∷ ways) = way_node_rows w.id w.members ++ all_way_node_rows ways

unfoldable pub insert_new_current_way_nodes : List WayT → WayUpdater → WayUpdater
unfolding all_way_node_rows
insert_new_current_way_nodes ways s = record s {
  db = record (s.db) { current_way_nodes = s.db.current_way_nodes ++ all_way_node_rows ways };
}

unfoldable pub save_current_ways_to_history : List ℕ → WayUpdater → Result WayUpdater
unfolding rows_of_ids
save_current_ways_to_history ids s =
    let rows = rows_of_ids ids s.db.current_ways in
    do
      guard (length rows == length ids) (server_error "Could not save current ways to history")
      ok (record s { db = record (s.db) { ways = s.db.ways ++ rows } })

-- The join of a node of a way with the table of the ways.
unfoldable pub versions_of_way_node : CurrentWayNode → List ElementRow → List WayNodeRow
versions_of_way_node wn [] = []
versions_of_way_node wn (r ∷ rs) =
    if eqb wn.way_id r.id
    then record {
      way_id = wn.way_id;
      node_id = wn.node_id;
      version = r.version;
      sequence_id = wn.sequence_id;
    }
      ∷ versions_of_way_node wn rs
    else versions_of_way_node wn rs

unfoldable pub history_way_nodes : List ℕ → List ElementRow → List CurrentWayNode → List WayNodeRow
unfolding versions_of_way_node
history_way_nodes ids rows [] = []
history_way_nodes ids rows (wn ∷ wns) =
    if mem_id wn.way_id ids
    then versions_of_way_node wn rows ++ history_way_nodes ids rows wns
    else history_way_nodes ids rows wns

unfoldable pub save_current_way_nodes_to_history : List ℕ → WayUpdater → WayUpdater
unfolding history_way_nodes
save_current_way_nodes_to_history ids s = record s {
  db = record (s.db) {
    way_nodes = s.db.way_nodes ++ history_way_nodes ids s.db.current_ways s.db.current_way_nodes;
  };
}

unfoldable pub save_current_way_tags_to_history : List ℕ → WayUpdater → WayUpdater
unfolding history_tags
save_current_way_tags_to_history ids s = record s {
  db = record (s.db) {
    way_tags = s.db.way_tags ++ history_tags ids s.db.current_ways s.db.current_way_tags;
  };
}

unfoldable pub delete_current_way_tags : List ℕ → WayUpdater → WayUpdater
unfolding without_tags
delete_current_way_tags ids s = record s {
  db = record (s.db) { current_way_tags = without_tags ids s.db.current_way_tags };
}

-- `DELETE FROM current_way_nodes WHERE way_id = ANY($1)`
unfoldable pub without_way_nodes : List ℕ → List CurrentWayNode → List CurrentWayNode
without_way_nodes ids [] = []
without_way_nodes ids (wn ∷ wns) =
    if mem_id wn.way_id ids then without_way_nodes ids wns else wn ∷ without_way_nodes ids wns

unfoldable pub delete_current_way_nodes : List ℕ → WayUpdater → WayUpdater
unfolding without_way_nodes
delete_current_way_nodes ids s = record s {
  db = record (s.db) { current_way_nodes = without_way_nodes ids s.db.current_way_nodes };
}
