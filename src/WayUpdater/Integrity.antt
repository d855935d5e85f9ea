-- ===== src/WayUpdater/Integrity.antt =====
-- Every node of a way is a visible node, and the way updater keeps it so.
use openstreetmap_cgimap.NodeUpdater.Tables.{unique_ids, mem_id}
use openstreetmap_cgimap.Prelude.{
  ℕ, ◌≡◌, ◌∙◌, inl, inr, Bool, true, false, List, [], ◌∷◌, ◌++◌, map, arith, ℕ-Eq, String-Eq,
  Bool-cases, All,
}
use openstreetmap_cgimap.Prelude.Int.{ℤ-Eq}
use openstreetmap_cgimap.Types.{ok, ◌>>=◌, >>=-eq-ok, ok-injective, ObjectType-Eq, Pair-Eq}
use openstreetmap_cgimap.Element.Found.{
  mem_id-unique_ids, mem_id-append, none_missing-all_found, All-append, process_packages-keeps,
}
use openstreetmap_cgimap.Element.{ids_of, item_packages, process_packages, check_unique_ids}
use openstreetmap_cgimap.Element.Deletion.{without_ids}
use openstreetmap_cgimap.Database.{Database, NodeRow, CurrentWayNode}
use openstreetmap_cgimap.WayUpdater.{WayNodeT, WayT, WayUpdater}
use openstreetmap_cgimap.WayUpdater.Placeholders.{replace_old_ids_in_ways}
use openstreetmap_cgimap.WayUpdater.Reference.{
  determine_already_deleted_ways, is_way_still_referenced,
}
use openstreetmap_cgimap.WayUpdater.Tables.{
  lock_current_ways, check_current_way_versions, lock_future_nodes, update_current_ways,
  insert_new_current_way_tags, insert_new_current_way_nodes, save_current_ways_to_history,
  save_current_way_nodes_to_history, save_current_way_tags_to_history, delete_current_way_tags,
  delete_current_way_nodes, visible_node_ids, future_node_ids, way_node_rows, all_way_node_rows,
  without_way_nodes, insert_new_ways_to_current_table,
}
use openstreetmap_cgimap.WayUpdater.Process.{
  process_way_package, process_modify_ways, process_new_ways, process_delete_ways, write_ways,
  expand_way_bbox,
}

-- The node of the row is in the table of the nodes and visible.
abbrev pub HasVisibleNode : List NodeRow → CurrentWayNode → Type 0
HasVisibleNode nodes wn = mem_id wn.node_id (visible_node_ids nodes) ≡ true

-- Every node of a way is visible.
abbrev pub WayNodesVisible : Database → Type 0
WayNodesVisible db = All (HasVisibleNode db.current_nodes) db.current_way_nodes

way_node_rows-visible :
    (nodes : List NodeRow) (i : ℕ) (wns : List WayNodeT)
    → ((j : ℕ)
        → mem_id j (map (λ (wn : WayNodeT). wn.node_id) wns) ≡ true
        → mem_id j (visible_node_ids nodes) ≡ true)
    → All (HasVisibleNode nodes) (way_node_rows i wns)
unfolding way_node_rows
way_node_rows-visible nodes i [] f = tt
way_node_rows-visible nodes i (wn ∷ wns) f =
    (f wn.node_id (ground arith), way_node_rows-visible nodes i wns (λ j m. f j (ground arith)))

all_way_node_rows-visible :
    (nodes : List NodeRow) (ways : List WayT)
    → ((j : ℕ) → mem_id j (future_node_ids ways) ≡ true → mem_id j (visible_node_ids nodes) ≡ true)
    → All (HasVisibleNode nodes) (all_way_node_rows ways)
unfolding all_way_node_rows future_node_ids
all_way_node_rows-visible nodes [] f = tt
all_way_node_rows-visible nodes (w ∷ ways) f =
    let ids = map (λ (wn : WayNodeT). wn.node_id) w.members in
    All-append (HasVisibleNode nodes) (way_node_rows w.id w.members) (all_way_node_rows ways)
      (way_node_rows-visible nodes w.id w.members
        (λ j m. f j (ground (arith, mem_id-append j ids (future_node_ids ways)))))
      (all_way_node_rows-visible nodes ways
        (λ j m. f j (ground (arith, mem_id-append j ids (future_node_ids ways)))))

-- The rows that are written after the nodes were locked.
locked_rows-visible :
    (ways : List WayT) (s : WayUpdater) {u : Unit {0}}
    → lock_future_nodes ways s ≡ ok u
    → All (HasVisibleNode s.db.current_nodes) (all_way_node_rows ways)
unfolding lock_future_nodes
locked_rows-visible ways s h = all_way_node_rows-visible s.db.current_nodes ways (λ j m.
    none_missing-all_found _ (unique_ids (future_node_ids ways)) _ j h
      (mem_id-unique_ids j (future_node_ids ways) ∙ m))

without_way_nodes-keeps :
    (nodes : List NodeRow) (ids : List ℕ) (wns : List CurrentWayNode)
    → All (HasVisibleNode nodes) wns
    → All (HasVisibleNode nodes) (without_way_nodes ids wns)
unfolding without_way_nodes
without_way_nodes-keeps nodes ids [] p = tt
without_way_nodes-keeps nodes ids (wn ∷ wns) (p, ps) =
    let rest = without_way_nodes-keeps nodes ids wns ps in
    elim (Bool-cases (mem_id wn.way_id ids)) [
      | inl removed ↦ rw removed rest
      | inr kept ↦ rw kept (p, rest)
    ]

write_ways-way_nodes :
    (ways : List WayT) (ids : List ℕ) (s s' : WayUpdater)
    → write_ways ways ids s ≡ ok s'
    → (s'.db.current_nodes ≡ s.db.current_nodes)
      × (s'.db.current_way_nodes ≡ s.db.current_way_nodes ++ all_way_node_rows ways)
unfolding write_ways insert_new_current_way_tags save_current_ways_to_history
    insert_new_current_way_nodes save_current_way_nodes_to_history save_current_way_tags_to_history
write_ways-way_nodes ways ids s s' h = ground arith

update_current_ways-way_nodes :
    (ways : List WayT) (visible : Bool) (s s' : WayUpdater)
    → update_current_ways ways visible s ≡ ok s'
    → (s'.db.current_nodes ≡ s.db.current_nodes)
      × (s'.db.current_way_nodes ≡ s.db.current_way_nodes)
update_current_ways-way_nodes [] visible s s' h = unfold update_current_ways in ground arith
update_current_ways-way_nodes (w ∷ ws) visible s s' h = unfold update_current_ways in ground arith

-- New rows are visible, so the rows written are.
write_ways-keeps :
    (ways : List WayT) (ids : List ℕ) (s s' : WayUpdater)
    → write_ways ways ids s ≡ ok s'
    → All (HasVisibleNode s.db.current_nodes) (all_way_node_rows ways)
    → WayNodesVisible s.db
    → WayNodesVisible s'.db
write_ways-keeps ways ids s s' h new old =
    let (same, written) = write_ways-way_nodes ways ids s s' h in
    rw same (
      rw written (
        All-append (HasVisibleNode s.db.current_nodes) s.db.current_way_nodes
          (all_way_node_rows ways) old new))

insert_new_ways-way_nodes :
    (ways : List WayT) (s s' : WayUpdater)
    → insert_new_ways_to_current_table ways s ≡ ok s'
    → (s'.db.current_nodes ≡ s.db.current_nodes)
      × (s'.db.current_way_nodes ≡ s.db.current_way_nodes)
unfolding insert_new_ways_to_current_table
insert_new_ways-way_nodes ways s s' h = ground arith

pub process_new_ways-keeps :
    (s s' : WayUpdater) → process_new_ways s ≡ ok s' → WayNodesVisible s.db → WayNodesVisible s'.db
unfolding process_new_ways
process_new_ways-keeps s s' h visible =
    let (ids, unique, h1) =
      >>=-eq-ok (check_unique_ids s.create_ways s.create_placeholder_ids) _ h in
    let (s1, inserted, h2) = >>=-eq-ok (insert_new_ways_to_current_table s.create_ways _) _ h1 in
    let (ways, replaced, h3) =
      >>=-eq-ok
        (replace_old_ids_in_ways s1.create_ways s1.ct.created_node_ids s1.ct.created_way_ids) _
        h2 in
    let (u, locked, h4) = >>=-eq-ok (lock_future_nodes ways s1) _ h3 in
    let (s2, written, h5) = >>=-eq-ok (write_ways ways (unique_ids (ids_of ways)) s1) _ h4 in
    let (nodes, way_nodes) = insert_new_ways-way_nodes s.create_ways _ s1 inserted in
    let before : WayNodesVisible s1.db = rw nodes (rw way_nodes visible) in
    rw (← ok-injective h5) (
      write_ways-keeps ways (unique_ids (ids_of ways)) s1 s2 written
        (locked_rows-visible ways s1 locked) before)

process_way_package-keeps :
    (ids : List ℕ) (p : List WayT) (s s' : WayUpdater)
    → process_way_package ids p s ≡ ok s'
    → WayNodesVisible s.db
    → WayNodesVisible s'.db
unfolding process_way_package delete_current_way_tags delete_current_way_nodes
process_way_package-keeps ids p s s' h visible =
    let ids_package = unique_ids (ids_of p) in
    let (u, checked, h1) = >>=-eq-ok (check_current_way_versions p s) _ h in
    let (u', locked, h2) = >>=-eq-ok (lock_future_nodes p s) _ h1 in
    let (s1, updated, h3) = >>=-eq-ok (update_current_ways p true _) _ h2 in
    let (s2, written, h4) = >>=-eq-ok (write_ways p ids_package s1) _ h3 in
    let (nodes, way_nodes) = update_current_ways-way_nodes p true _ s1 updated in
    let rest =
      without_way_nodes-keeps s.db.current_nodes ids_package s.db.current_way_nodes visible in
    let before : WayNodesVisible s1.db = rw nodes (rw way_nodes rest) in
    rw (← ok-injective h4) (
      write_ways-keeps p ids_package s1 s2 written (rw nodes (locked_rows-visible p s locked))
        before)

pub process_modify_ways-keeps :
    (s s' : WayUpdater)
    → process_modify_ways s ≡ ok s'
    → WayNodesVisible s.db
    → WayNodesVisible s'.db
unfolding process_modify_ways
process_modify_ways-keeps s s' h visible =
    let (ways, replaced, h1) =
      >>=-eq-ok (replace_old_ids_in_ways s.modify_ways s.ct.created_node_ids s.ct.created_way_ids) _
        h in
    let ids = unique_ids (ids_of ways) in
    let (u, locked, h2) = >>=-eq-ok (lock_current_ways ids s) _ h1 in
    let (ps, built, h3) = >>=-eq-ok (item_packages ways) _ h2 in
    let (s1, processed, h4) = >>=-eq-ok (process_packages (process_way_package ids) ps s) _ h3 in
    rw (← ok-injective h4) (
      process_packages-keeps (process_way_package ids) (λ t. WayNodesVisible t.db)
        (process_way_package-keeps ids) ps s s1 processed visible)

deletion_checks-way_nodes :
    (ways : List WayT) (s : WayUpdater) {ids : List ℕ} {ways' : List WayT} (s1 s2 : WayUpdater)
    → determine_already_deleted_ways ways s ≡ ok (s1, ids)
    → is_way_still_referenced (without_ids ids ways) s1 ≡ ok (s2, ways')
    → s2.db ≡ s.db
unfolding determine_already_deleted_ways is_way_still_referenced
deletion_checks-way_nodes ways s s1 s2 h h' = ground arith

-- The statements after the update of the rows.
end_of_deletion-way_nodes :
    (ids : List ℕ) (s s' : WayUpdater)
    → (save_current_ways_to_history ids
          (delete_current_way_nodes ids (delete_current_way_tags ids s))
        >>= λ t. ok (record t { delete_ways = [] }))
      ≡ ok s'
    → (s'.db.current_nodes ≡ s.db.current_nodes)
      × (s'.db.current_way_nodes ≡ without_way_nodes ids s.db.current_way_nodes)
unfolding save_current_ways_to_history delete_current_way_nodes delete_current_way_tags
end_of_deletion-way_nodes ids s s' h = ground arith

pub process_delete_ways-keeps :
    (s s' : WayUpdater)
    → process_delete_ways s ≡ ok s'
    → WayNodesVisible s.db
    → WayNodesVisible s'.db
unfolding process_delete_ways
process_delete_ways-keeps s s' h visible =
    let (ways, replaced, h1) =
      >>=-eq-ok (replace_old_ids_in_ways s.delete_ways s.ct.created_node_ids s.ct.created_way_ids) _
        h in
    let (u, locked, h2) = >>=-eq-ok (lock_current_ways (unique_ids (ids_of ways)) s) _ h1 in
    let ((s1, ids), determined, h3) = >>=-eq-ok (determine_already_deleted_ways ways s) _ h2 in
    let (u', checked, h4) = >>=-eq-ok (check_current_way_versions (without_ids ids ways) s1) _ h3 in
    let ((s2, ways'), unreferenced, h5) =
      >>=-eq-ok (is_way_still_referenced (without_ids ids ways) s1) _ h4 in
    let (s3, updated, h6) =
      >>=-eq-ok (update_current_ways ways' false (expand_way_bbox (unique_ids (ids_of ways)) s2)) _
        h5 in
    let (nodes, way_nodes) = update_current_ways-way_nodes ways' false _ s3 updated in
    let same : s2.db ≡ s.db = deletion_checks-way_nodes ways s s1 s2 determined unreferenced in
    let before : WayNodesVisible s3.db = rw nodes (rw way_nodes (rw same visible)) in
    let (nodes', way_nodes') = end_of_deletion-way_nodes (ids_of ways') s3 s' h6 in
    rw nodes' (
      rw way_nodes'
        (without_way_nodes-keeps s3.db.current_nodes (ids_of ways') s3.db.current_way_nodes before))
