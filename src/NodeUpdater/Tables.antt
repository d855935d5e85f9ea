-- ===== src/NodeUpdater/Tables.antt =====
-- node_updater.cpp: the statements that change or check the tables of nodes and tags.
use openstreetmap_cgimap.Database.{NodeRow}
use openstreetmap_cgimap.NodeUpdater.{NodeT, NodeUpdater}
use openstreetmap_cgimap.Tracking.{ObjectIdMapping}
use openstreetmap_cgimap.Prelude.{
  ℕ, ◌+◌, Bool, true, false, not, ◌&&◌, ◌||◌, Option, none, some, List, [], ◌∷◌, ◌++◌, map, ltb,
  eqb, if◌then◌else◌, ◌==◌, ℕ-Eq, String-Eq, length,
}
use openstreetmap_cgimap.Prelude.Int.{ℤ, pos, ℤ-Eq}
use openstreetmap_cgimap.StdMap.{StdMap, find, assign}
use openstreetmap_cgimap.Types.{
  not_found, conflict, server_error, Result, ok, err, ◌>>◌, guard, ObjectType-Eq, Pair-Eq,
}

-- `id = ANY($1)`, and `contains` of a set of ids
abbrev pub mem_id : ℕ → List ℕ → Bool
mem_id i [] = false
mem_id i (j ∷ js) = eqb i j || mem_id i js

-- A sorted list of ids with one more in its place; an id that is there is not doubled.
unfoldable pub insert_id : ℕ → List ℕ → List ℕ
insert_id i [] = i ∷ []
insert_id i (j ∷ js) =
    let rest = insert_id i js in
    if ltb i j then i ∷ j ∷ js else if eqb i j then j ∷ js else j ∷ rest

-- `std::ranges::sort` and `std::ranges::unique`
unfoldable pub unique_ids : List ℕ → List ℕ
unfolding insert_id
unique_ids [] = []
unique_ids (i ∷ is) = insert_id i (unique_ids is)

abbrev pub ids_of : List NodeT → List ℕ
ids_of = map (λ n. n.id)

-- `WHERE id = ANY($1)`
unfoldable pub rows_with_ids : List ℕ → List NodeRow → List NodeRow
rows_with_ids ids [] = []
rows_with_ids ids (r ∷ rs) =
    if mem_id r.id ids then r ∷ rows_with_ids ids rs else rows_with_ids ids rs

-- `id_to_old_id[id]`, where the last node with the id counts.
unfoldable pub id_to_old_id : List NodeT → StdMap ℕ ℤ → StdMap ℕ ℤ
id_to_old_id [] m = m
id_to_old_id (n ∷ ns) m = id_to_old_id ns (assign n.id n.old_id m)

abbrev pub old_id_at : StdMap ℕ ℤ → ℕ → ℤ
old_id_at m i = elim (find i m) [ none ↦ pos 0 | some z ↦ z ]

-- The table expression `ids_mapping`: one new id for each old id.
unfoldable pub ids_mapping : ℕ → List NodeT → List ObjectIdMapping
ids_mapping next [] = []
ids_mapping next (n ∷ ns) =
    record { old_id = n.old_id; new_id = next; new_version = 1 } ∷ ids_mapping (next + 1) ns

-- `tmp_nodes INNER JOIN ids_mapping ON tmp_nodes.old_id = ids_mapping.old_id`, for one mapping.
unfoldable pub joined_rows : ObjectIdMapping → List NodeT → List NodeRow
joined_rows i [] = []
joined_rows i (n ∷ ns) =
    if n.old_id == i.old_id
    then record {
      id = i.new_id;
      latitude = n.lat;
      longitude = n.lon;
      changeset_id = n.changeset_id;
      visible = true;
      tile = n.tile;
      version = 1;
    }
      ∷ joined_rows i ns
    else joined_rows i ns

unfoldable pub insert_op : List ObjectIdMapping → List NodeT → List NodeRow
insert_op [] nodes = []
insert_op (i ∷ is) nodes = joined_rows i nodes ++ insert_op is nodes

-- The new rows of `current_nodes`, the next value of the sequence, and the mapping of the ids.
unfoldable pub insert_new_nodes_to_current_table : List NodeT → NodeUpdater → Result NodeUpdater
unfolding ids_mapping insert_op joined_rows
insert_new_nodes_to_current_table [] s = ok s
insert_new_nodes_to_current_table (n ∷ ns) s =
    let r = ids_mapping s.db.current_nodes_id_seq (n ∷ ns) in
    do
      guard (length r == length (n ∷ ns))
          (server_error "Could not create all new nodes in current_nodes table")
      ok (record s {
        db = record (s.db) {
          current_nodes = s.db.current_nodes ++ insert_op r (n ∷ ns);
          current_nodes_id_seq = s.db.current_nodes_id_seq + length (n ∷ ns);
        };
        ct = record (s.ct) { created_node_ids = s.ct.created_node_ids ++ r };
      })

-- The ids that are in no row.
unfoldable pub missing_ids : List ℕ → List NodeRow → List ℕ
missing_ids [] rows = []
missing_ids (i ∷ is) rows =
    if mem_id i (map (λ (r : NodeRow). r.id) rows)
    then missing_ids is rows
    else i ∷ missing_ids is rows

unfoldable pub lock_current_nodes : List ℕ → NodeUpdater → Result (Unit {0})
unfolding missing_ids
lock_current_nodes ids s = elim (missing_ids ids s.db.current_nodes) [
  | [] ↦ ok tt
  | i ∷ is ↦ err (not_found "The following node ids are not known on the database: {}")
]

-- `t.id = cn.id AND t.version <> cn.version`, for one node and all rows.
unfoldable pub has_other_version : NodeT → List NodeRow → Bool
has_other_version n [] = false
has_other_version n (r ∷ rs) =
    eqb n.id r.id && not (eqb n.version r.version) || has_other_version n rs

unfoldable pub check_current_node_versions : List NodeT → NodeUpdater → Result (Unit {0})
unfolding has_other_version
check_current_node_versions [] s = ok tt
check_current_node_versions (n ∷ ns) s =
    let rest = check_current_node_versions ns s in
    if has_other_version n s.db.current_nodes
    then err (conflict "Version mismatch: Provided {:d}, server had: {:d} of Node {:d}")
    else rest

-- The node of the request that a row of the table is updated from.
unfoldable pub matching_node : NodeRow → List NodeT → Option NodeT
matching_node r [] = none
matching_node r (n ∷ ns) =
    if eqb n.id r.id && eqb n.version r.version then some n else matching_node r ns

-- `UPDATE … SET … FROM u WHERE n.id = u.id AND n.version = u.version`, with the rows changed.
unfoldable pub update_rows : (NodeT → NodeRow → NodeRow) → List NodeT → List NodeRow → List NodeRow
update_rows set nodes [] = []
update_rows set nodes (r ∷ rs) =
    (elim (matching_node r nodes) [ none ↦ r | some n ↦ set n r ]) ∷ update_rows set nodes rs

-- `RETURNING n.id, n.version`
unfoldable pub returned_rows :
    (NodeT → NodeRow → NodeRow) → List NodeT → List NodeRow → List NodeRow
returned_rows set nodes [] = []
returned_rows set nodes (r ∷ rs) =
    let rest = returned_rows set nodes rs in
    elim (matching_node r nodes) [ none ↦ rest | some n ↦ set n r ∷ rest ]

abbrev pub set_modified : NodeT → NodeRow → NodeRow
set_modified n r = record {
  id = r.id;
  latitude = n.lat;
  longitude = n.lon;
  changeset_id = n.changeset_id;
  visible = true;
  tile = n.tile;
  version = n.version + 1;
}

abbrev pub set_deleted : NodeT → NodeRow → NodeRow
set_deleted n r = record r {
  changeset_id = n.changeset_id;
  visible = false;
  version = n.version + 1;
}

abbrev pub returned_mapping : StdMap ℕ ℤ → NodeRow → ObjectIdMapping
returned_mapping m r = record { old_id = old_id_at m r.id; new_id = r.id; new_version = r.version }

unfoldable pub update_current_nodes : List NodeT → NodeUpdater → Result NodeUpdater
unfolding update_rows returned_rows matching_node id_to_old_id find assign
update_current_nodes [] s = ok s
update_current_nodes (n ∷ ns) s =
    let r = returned_rows set_modified (n ∷ ns) s.db.current_nodes in
    let m = id_to_old_id (n ∷ ns) [] in
    do
      guard (length r == length (n ∷ ns))
          (server_error "Could not update Node {:d} with version {:d} on the database.")
      ok (record s {
        db = record (s.db) { current_nodes = update_rows set_modified (n ∷ ns) s.db.current_nodes };
        ct = record (s.ct) {
          modified_node_ids = s.ct.modified_node_ids ++ map (returned_mapping m) r;
        };
      })

unfoldable pub delete_current_nodes : List NodeT → NodeUpdater → Result NodeUpdater
unfolding update_rows returned_rows matching_node id_to_old_id find assign
delete_current_nodes [] s = ok s
delete_current_nodes (n ∷ ns) s =
    let r = returned_rows set_deleted (n ∷ ns) s.db.current_nodes in
    let m = id_to_old_id (n ∷ ns) [] in
    do
      guard (length r == length (n ∷ ns)) (server_error "Could not delete all current nodes")
      ok (record s {
        db = record (s.db) { current_nodes = update_rows set_deleted (n ∷ ns) s.db.current_nodes };
        ct = record (s.ct) {
          deleted_node_ids = s.ct.deleted_node_ids ++ map (λ r'. old_id_at m r'.id) r;
        };
      })
