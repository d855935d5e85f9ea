-- ===== src/NodeUpdater/Reference.antt =====
-- node_updater.cpp: tags, the history tables, the bounding box, and the nodes that a deletion with
-- if-unused leaves alone.
use openstreetmap_cgimap.Tracking.{OsmChangeTracking}
use openstreetmap_cgimap.Bbox.{undefined_bbox, BboxT, expand}
use openstreetmap_cgimap.NodeUpdater.Tables.{
  ids_of, returned_mapping, unique_ids, id_to_old_id, rows_with_ids, mem_id,
}
use openstreetmap_cgimap.NodeUpdater.{NodeT, NodeUpdater}
use openstreetmap_cgimap.Database.{CurrentWayNode, member_ids, TagRow, NodeRow, CurrentTagRow}
use openstreetmap_cgimap.Prelude.{
  ℕ, String, Bool, true, false, not, ◌&&◌, Option, none, some, List, [], ◌∷◌, ◌++◌, map, eqb,
  if◌then◌else◌, ◌==◌, ℕ-Eq, String-Eq, length,
}
use openstreetmap_cgimap.Prelude.Int.{ℤ-Eq}
use openstreetmap_cgimap.StdMap.{find, assign}
use openstreetmap_cgimap.Types.{
  Error, gone, precondition_failed, server_error, Result, ok, err, ◌>>=◌, ◌>>◌, guard,
  ObjectType-Eq, Pair-Eq,
}

-- The rows of the tags of one node.
unfoldable pub tag_rows : ℕ → List (String × String) → List CurrentTagRow
tag_rows i [] = []
tag_rows i ((key, value) ∷ tags) = record { node_id = i; k = key; v = value } ∷ tag_rows i tags

unfoldable pub all_tag_rows : List NodeT → List CurrentTagRow
all_tag_rows [] = []
all_tag_rows (n ∷ ns) = tag_rows n.id n.tags ++ all_tag_rows ns

-- The new tags, and the ids of the nodes that have tags.
unfoldable pub insert_new_current_node_tags : List NodeT → NodeUpdater → NodeUpdater × List ℕ
unfolding all_tag_rows tag_rows unique_ids
insert_new_current_node_tags nodes s =
    let rows = all_tag_rows nodes in
    (
      record s { db = record (s.db) { current_node_tags = s.db.current_node_tags ++ rows } },
      unique_ids (map (λ (t : CurrentTagRow). t.node_id) rows),
    )

unfoldable pub without_node_tags : List ℕ → List CurrentTagRow → List CurrentTagRow
without_node_tags ids [] = []
without_node_tags ids (t ∷ ts) =
    if mem_id t.node_id ids then without_node_tags ids ts else t ∷ without_node_tags ids ts

unfoldable pub delete_current_node_tags : List ℕ → NodeUpdater → NodeUpdater
unfolding without_node_tags
delete_current_node_tags ids s = record s {
  db = record (s.db) { current_node_tags = without_node_tags ids s.db.current_node_tags };
}

unfoldable pub save_current_nodes_to_history : List ℕ → NodeUpdater → Result NodeUpdater
unfolding rows_with_ids
save_current_nodes_to_history ids s =
    let rows = rows_with_ids ids s.db.current_nodes in
    do
      guard (length rows == length ids) (server_error "Could not save current nodes to history")
      ok (record s { db = record (s.db) { nodes = s.db.nodes ++ rows } })

-- `current_node_tags t INNER JOIN current_nodes n ON t.node_id = n.id`, for one tag.
unfoldable pub versions_of_tag : CurrentTagRow → List NodeRow → List TagRow
versions_of_tag t [] = []
versions_of_tag t (r ∷ rs) =
    if eqb t.node_id r.id
    then record { node_id = t.node_id; version = r.version; k = t.k; v = t.v }
      ∷ versions_of_tag t rs
    else versions_of_tag t rs

unfoldable pub history_tags : List ℕ → List NodeRow → List CurrentTagRow → List TagRow
history_tags ids rows [] = []
history_tags ids rows (t ∷ ts) =
    if mem_id t.node_id ids
    then versions_of_tag t rows ++ history_tags ids rows ts
    else history_tags ids rows ts

unfoldable pub save_current_node_tags_to_history : List ℕ → NodeUpdater → NodeUpdater
unfolding history_tags versions_of_tag
save_current_node_tags_to_history ids s = record s {
  db = record (s.db) {
    node_tags = s.db.node_tags ++ history_tags ids s.db.current_nodes s.db.current_node_tags;
  };
}

-- The box of a row.
abbrev pub row_bbox : NodeRow → BboxT
row_bbox r = record {
  minlat = r.latitude;
  minlon = r.longitude;
  maxlat = r.latitude;
  maxlon = r.longitude;
}

-- `MIN` and `MAX` over the rows: `none` where the result is NULL.
unfoldable pub rows_bbox : List NodeRow → Option BboxT
unfolding expand
rows_bbox [] = none
rows_bbox (r ∷ rs) = elim (rows_bbox rs) [
  | none ↦ some (row_bbox r)
  | some b ↦ some (expand (row_bbox r) b)
]

unfoldable pub calc_node_bbox : List ℕ → NodeUpdater → BboxT
unfolding rows_bbox rows_with_ids
calc_node_bbox ids s = elim (rows_bbox (rows_with_ids ids s.db.current_nodes)) [
  | none ↦ undefined_bbox
  | some b ↦ b
]

-- The ids of the nodes with, or without, the flag if-unused.
unfoldable pub ids_with_flag : Bool → List NodeT → List ℕ
ids_with_flag flag [] = []
ids_with_flag flag (n ∷ ns) =
    let rest = ids_with_flag flag ns in
    if n.if_unused
    then (if flag then n.id ∷ rest else rest)
    else (if flag then rest else n.id ∷ rest)

-- `SELECT … WHERE id = ANY($1) AND visible = false`
unfoldable pub invisible_rows : List ℕ → List NodeRow → List NodeRow
invisible_rows ids [] = []
invisible_rows ids (r ∷ rs) =
    if mem_id r.id ids && not r.visible then r ∷ invisible_rows ids rs else invisible_rows ids rs

abbrev pub already_deleted : Error
already_deleted = gone "The node with the id {:d} has already been deleted"

-- The loop over the rows that are already deleted: the ids found, and the rows to report.
unfoldable pub split_deleted : List ℕ → List ℕ → List NodeRow → Result (List ℕ × List NodeRow)
split_deleted with_flag without_flag [] = ok ([], [])
split_deleted with_flag without_flag (r ∷ rs) =
    let rest = split_deleted with_flag without_flag rs in
    if mem_id r.id without_flag then err already_deleted else (do
      (ids, reported) ← rest
      ok (r.id ∷ ids, if mem_id r.id with_flag then r ∷ reported else reported))

abbrev pub skip_rows : List NodeT → List NodeRow → OsmChangeTracking → OsmChangeTracking
skip_rows nodes rows ct = record ct {
  skip_deleted_node_ids =
      ct.skip_deleted_node_ids ++ map (returned_mapping (id_to_old_id nodes [])) rows;
}

-- The ids of the nodes that are deleted already come back.
unfoldable pub determine_already_deleted_nodes :
    List NodeT → NodeUpdater → Result (NodeUpdater × List ℕ)
unfolding split_deleted invisible_rows ids_with_flag id_to_old_id find assign
determine_already_deleted_nodes nodes s = do
  (ids, reported) ←
      split_deleted (ids_with_flag true nodes) (ids_with_flag false nodes)
        (invisible_rows (ids_of nodes) s.db.current_nodes)
  ok (record s { ct = skip_rows nodes reported s.ct }, ids)

-- The ids of a list that are in a column: the groups of `GROUP BY`.
unfoldable pub referenced_ids : List ℕ → List ℕ → List ℕ
referenced_ids [] column = []
referenced_ids (i ∷ is) column =
    if mem_id i column then i ∷ referenced_ids is column else referenced_ids is column

-- The loop over the groups: the ids to leave alone.
unfoldable pub excluded_ids : Error → List ℕ → List ℕ → List ℕ → Result (List ℕ)
excluded_ids e with_flag without_flag [] = ok []
excluded_ids e with_flag without_flag (i ∷ is) =
    let rest = excluded_ids e with_flag without_flag is in
    if mem_id i without_flag
    then err e
    else (do ids ← rest; ok (if mem_id i with_flag then i ∷ ids else ids))

-- `std::erase_if`
unfoldable pub without_ids : List ℕ → List NodeT → List NodeT
without_ids ids [] = []
without_ids ids (n ∷ ns) = if mem_id n.id ids then without_ids ids ns else n ∷ without_ids ids ns

abbrev pub used_by_ways : Error
used_by_ways = precondition_failed "Node {:d} is still used by ways {}."

abbrev pub used_by_relations : Error
used_by_relations = precondition_failed "Node {:d} is still used by relations {}."

-- The nodes to be deleted come back.
unfoldable pub is_node_still_referenced :
    List NodeT → NodeUpdater → Result (NodeUpdater × List NodeT)
unfolding member_ids referenced_ids excluded_ids without_ids ids_with_flag unique_ids rows_with_ids
    id_to_old_id find assign
is_node_still_referenced nodes s =
    let ids = unique_ids (ids_of nodes) in
    let with_flag = ids_with_flag true nodes in
    let without_flag = ids_with_flag false nodes in
    do
      by_ways ←
          excluded_ids used_by_ways with_flag without_flag
            (referenced_ids ids (map (λ (w : CurrentWayNode). w.node_id) s.db.current_way_nodes))
      by_relations ←
          excluded_ids used_by_relations with_flag without_flag
            (referenced_ids ids (member_ids "Node" s.db.current_relation_members))
      let excluded = unique_ids (by_ways ++ by_relations)
      let rows = rows_with_ids excluded s.db.current_nodes
      guard (length rows == length excluded)
          (server_error "Could not get details about still referenced nodes")
      ok (record s { ct = skip_rows nodes rows s.ct }, without_ids excluded nodes)
