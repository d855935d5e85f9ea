-- ===== src/NodeUpdater/Integrity.antt =====
-- What the node updater leaves as it is: the other tables, and the nodes that they refer to.
use openstreetmap_cgimap.NodeUpdater.Tables.{ids_mapping}
use openstreetmap_cgimap.Prelude.{
  ℕ, ◌≡◌, refl, sym, ap, ◌∙◌, true, false, List, [], ◌∷◌, ◌++◌, arith, ℕ-Eq, String-Eq,
}
use openstreetmap_cgimap.Prelude.Int.{ℤ-Eq}
use openstreetmap_cgimap.Types.{ok, ◌>>=◌, >>=-eq-ok, ok-injective, ObjectType-Eq, Pair-Eq}
use mathlib.Core.List.{append-nil}
use openstreetmap_cgimap.NodeUpdater.Process.{
  process_new_nodes, process_modify_nodes, process_package, process_packages, process_delete_nodes,
  node_packages,
}
use openstreetmap_cgimap.NodeUpdater.Placeholders.{
  replace_old_ids_in_nodes, check_unique_placeholder_ids,
}
use openstreetmap_cgimap.NodeUpdater.Tables.{
  mem_id, unique_ids, update_rows, set_deleted, ids_of, update_current_nodes, delete_current_nodes,
  insert_new_nodes_to_current_table, insert_op, lock_current_nodes, check_current_node_versions,
}
use openstreetmap_cgimap.NodeUpdater.Reference.{
  without_ids, is_node_still_referenced, determine_already_deleted_nodes, delete_current_node_tags,
  insert_new_current_node_tags, save_current_nodes_to_history, save_current_node_tags_to_history,
}
use openstreetmap_cgimap.NodeUpdater.Unused.{
  used_node_ids, is_node_still_referenced-unused, is_node_still_referenced-db, visible-append,
  visible-set_modified, visible-set_deleted,
}
use openstreetmap_cgimap.NodeUpdater.Versions.{process_package-eq-ok}
use openstreetmap_cgimap.WayUpdater.Tables.{visible_node_ids}
use openstreetmap_cgimap.NodeUpdater.{NodeT, NodeUpdater}
use openstreetmap_cgimap.Database.{ElementRow, Database, NodeRow, CurrentWayNode, CurrentMember}

-- The tables of ways and relations.
abbrev pub other_tables :
    Database → List CurrentWayNode × (List CurrentMember × (List ElementRow × List ElementRow))
other_tables db =
    (db.current_way_nodes, (db.current_relation_members, (db.current_ways, db.current_relations)))

-- The other tables are as before, and the nodes they refer to are visible if they were.
abbrev pub KeepsUsedNodes : Database → Database → Type 0
KeepsUsedNodes db db' =
    (other_tables db' ≡ other_tables db)
    × ((j : ℕ)
        → mem_id j (used_node_ids db) ≡ true
        → mem_id j (visible_node_ids db.current_nodes) ≡ true
        → mem_id j (visible_node_ids db'.current_nodes) ≡ true)

update_current_nodes-tables :
    (p : List NodeT) (s s' : NodeUpdater)
    → update_current_nodes p s ≡ ok s'
    → other_tables s'.db ≡ other_tables s.db
update_current_nodes-tables [] s s' h = unfold update_current_nodes in ground arith
update_current_nodes-tables (n ∷ ns) s s' h = unfold update_current_nodes in ground arith

process_package-tables :
    (p : List NodeT) (s s' : NodeUpdater)
    → process_package p s ≡ ok s'
    → other_tables s'.db ≡ other_tables s.db
unfolding process_package delete_current_node_tags save_current_node_tags_to_history
    insert_new_current_node_tags save_current_nodes_to_history
process_package-tables p s s' h =
    let (u, checked, h1) = >>=-eq-ok (check_current_node_versions p s) _ h in
    let (s1, updated, h2) = >>=-eq-ok (update_current_nodes p _) _ h1 in
    let first : other_tables s1.db ≡ other_tables s.db =
      update_current_nodes-tables p _ s1 updated in
    let last : other_tables s'.db ≡ other_tables s1.db = ground arith in last ∙ first

process_packages-keeps :
    (ps : List (List NodeT)) (s s' : NodeUpdater)
    → process_packages ps s ≡ ok s'
    → (other_tables s'.db ≡ other_tables s.db)
      × ((j : ℕ)
          → mem_id j (visible_node_ids s.db.current_nodes) ≡ true
          → mem_id j (visible_node_ids s'.db.current_nodes) ≡ true)
unfolding process_packages
process_packages-keeps [] s s' h = rw (← ok-injective h) (refl, λ j m. m)
process_packages-keeps (p ∷ ps) s s' h =
    let (s1, first, h1) = >>=-eq-ok (process_package p s) _ h in
    let (same, visible) = process_packages-keeps ps s1 s' h1 in
    (
      same ∙ process_package-tables p s s1 first,
      λ j m.
          visible j (
            rw (process_package-eq-ok p s first).1 (visible-set_modified j p s.db.current_nodes m)),
    )

pub process_modify_nodes-keeps :
    (s s' : NodeUpdater) → process_modify_nodes s ≡ ok s' → KeepsUsedNodes s.db s'.db
unfolding process_modify_nodes
process_modify_nodes-keeps s s' h =
    let (nodes, replaced, h1) =
      >>=-eq-ok (replace_old_ids_in_nodes s.modify_nodes s.ct.created_node_ids) _ h in
    let (u, locked, h2) = >>=-eq-ok (lock_current_nodes (unique_ids (ids_of nodes)) s) _ h1 in
    let (ps, built, h3) = >>=-eq-ok (node_packages nodes) _ h2 in
    let (s1, processed, h4) = >>=-eq-ok (process_packages ps s) _ h3 in
    let (same, visible) = process_packages-keeps ps s s1 processed in
    rw (← ok-injective h4) (same, λ j used m. visible j m)

insert_new_nodes-keeps :
    (nodes : List NodeT) (s s' : NodeUpdater)
    → insert_new_nodes_to_current_table nodes s ≡ ok s'
    → (other_tables s'.db ≡ other_tables s.db)
      × ((rows : List NodeRow) × (s'.db.current_nodes ≡ s.db.current_nodes ++ rows))
insert_new_nodes-keeps [] s s' h =
    unfold insert_new_nodes_to_current_table in
    rw (← ok-injective h) (refl, ([], sym (append-nil s.db.current_nodes)))
insert_new_nodes-keeps (n ∷ ns) s s' h =
    unfold insert_new_nodes_to_current_table in
    (
      ground arith,
      (insert_op (ids_mapping s.db.current_nodes_id_seq (n ∷ ns)) (n ∷ ns), ground arith),
    )

pub process_new_nodes-keeps :
    (s s' : NodeUpdater) → process_new_nodes s ≡ ok s' → KeepsUsedNodes s.db s'.db
unfolding process_new_nodes insert_new_current_node_tags save_current_nodes_to_history
    save_current_node_tags_to_history
process_new_nodes-keeps s s' h =
    let (ids, unique, h1) =
      >>=-eq-ok (check_unique_placeholder_ids s.create_nodes s.create_placeholder_ids) _ h in
    let (s1, inserted, h2) = >>=-eq-ok (insert_new_nodes_to_current_table s.create_nodes _) _ h1 in
    let (nodes, replaced, h3) =
      >>=-eq-ok (replace_old_ids_in_nodes s1.create_nodes s1.ct.created_node_ids) _ h2 in
    let (same, (rows, new)) = insert_new_nodes-keeps s.create_nodes _ s1 inserted in
    let last : other_tables s'.db ≡ other_tables s1.db = ground arith in
    let table : s'.db.current_nodes ≡ s1.db.current_nodes = ground arith in
    (last ∙ same, λ j used m. rw table (rw new (visible-append j s.db.current_nodes rows m)))

delete_current_nodes-keeps :
    (nodes : List NodeT) (s s' : NodeUpdater)
    → delete_current_nodes nodes s ≡ ok s'
    → (other_tables s'.db ≡ other_tables s.db)
      × ((j : ℕ)
          → mem_id j (ids_of nodes) ≡ false
          → mem_id j (visible_node_ids s.db.current_nodes) ≡ true
          → mem_id j (visible_node_ids s'.db.current_nodes) ≡ true)
delete_current_nodes-keeps [] s s' h =
    unfold delete_current_nodes in rw (← ok-injective h) (refl, λ j other m. m)
delete_current_nodes-keeps (n ∷ ns) s s' h =
    let updated : s'.db.current_nodes ≡ update_rows set_deleted (n ∷ ns) s.db.current_nodes =
      unfold delete_current_nodes in ground arith in
    (
      unfold delete_current_nodes in ground arith,
      λ j other m. rw updated (visible-set_deleted j (n ∷ ns) s.db.current_nodes other m),
    )

end_of_deletion-tables :
    (ids : List ℕ) (s s' : NodeUpdater)
    → (save_current_nodes_to_history ids (delete_current_node_tags ids s) >>= λ t.
        ok (record t { delete_nodes = [] }))
      ≡ ok s'
    → (other_tables s'.db ≡ other_tables s.db) × (s'.db.current_nodes ≡ s.db.current_nodes)
unfolding save_current_nodes_to_history delete_current_node_tags
end_of_deletion-tables ids s s' h = ground arith

determine_already_deleted_nodes-db :
    (nodes : List NodeT) (s s1 : NodeUpdater) (ids : List ℕ)
    → determine_already_deleted_nodes nodes s ≡ ok (s1, ids)
    → s1.db ≡ s.db
unfolding determine_already_deleted_nodes
determine_already_deleted_nodes-db nodes s s1 ids h = ground arith

pub process_delete_nodes-keeps :
    (s s' : NodeUpdater) → process_delete_nodes s ≡ ok s' → KeepsUsedNodes s.db s'.db
unfolding process_delete_nodes
process_delete_nodes-keeps s s' h =
    let (nodes, replaced, h1) =
      >>=-eq-ok (replace_old_ids_in_nodes s.delete_nodes s.ct.created_node_ids) _ h in
    let (u, locked, h2) = >>=-eq-ok (lock_current_nodes (unique_ids (ids_of nodes)) s) _ h1 in
    let ((s1, ids), determined, h3) = >>=-eq-ok (determine_already_deleted_nodes nodes s) _ h2 in
    let visible = without_ids ids nodes in
    let (u', checked, h4) = >>=-eq-ok (check_current_node_versions visible s1) _ h3 in
    let ((s2, left), unreferenced, h5) = >>=-eq-ok (is_node_still_referenced visible s1) _ h4 in
    let (s3, deleted, h6) = >>=-eq-ok (delete_current_nodes left _) _ h5 in
    let same1 : s1.db ≡ s.db = determine_already_deleted_nodes-db nodes s s1 ids determined in
    let same2 : s2.db ≡ s1.db = is_node_still_referenced-db visible s1 s2 left unreferenced in
    let (tables3, kept) = delete_current_nodes-keeps left _ s3 deleted in
    let (tables, rows) = end_of_deletion-tables (ids_of left) s3 s' h6 in
    (
      tables ∙ tables3 ∙ ap other_tables (same2 ∙ same1),
      λ j used m. rw rows (
          kept j (is_node_still_referenced-unused j visible s1 s2 left unreferenced (rw same1 used))
            (rw same2 (rw same1 m))),
    )
