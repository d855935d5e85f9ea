-- ===== src/WayUpdater/Unused.antt =====
-- What the way updater leaves as it is: the other tables, and the ways that relations refer to.
use openstreetmap_cgimap.NodeUpdater.Tables.{mem_id, unique_ids}
use openstreetmap_cgimap.Prelude.{
  ℕ, ◌≡◌, refl, ap, ◌∙◌, Bool, true, false, not, List, [], ◌∷◌, ◌++◌, arith, ℕ-Eq, String-Eq,
}
use openstreetmap_cgimap.Prelude.Int.{ℤ-Eq}
use openstreetmap_cgimap.Types.{
  precondition_failed, ok, ◌>>=◌, >>=-eq-ok, ok-injective, ObjectType-Eq, Pair-Eq,
}
use openstreetmap_cgimap.Element.Found.{mem_id-unique_ids}
use openstreetmap_cgimap.Element.{
  ids_of, item_packages, process_packages, check_unique_ids, visible_ids, update_rows, insert_op,
  ids_mapping,
}
use openstreetmap_cgimap.Element.Unused.{unused_left, visible-update_rows}
use openstreetmap_cgimap.Element.Deletion.{without_ids, ids_with_flag}
use openstreetmap_cgimap.NodeUpdater.Reference.{referenced_ids, excluded_ids}
use openstreetmap_cgimap.Database.{ElementRow, Database, NodeRow, CurrentMember, member_ids}
use openstreetmap_cgimap.WayUpdater.{WayT, WayUpdater}
use openstreetmap_cgimap.WayUpdater.Placeholders.{replace_old_ids_in_ways}
use openstreetmap_cgimap.WayUpdater.Reference.{
  determine_already_deleted_ways, is_way_still_referenced,
}
use openstreetmap_cgimap.WayUpdater.Tables.{
  lock_current_ways, check_current_way_versions, lock_future_nodes, update_current_ways,
  insert_new_current_way_tags, insert_new_current_way_nodes, save_current_ways_to_history,
  save_current_way_nodes_to_history, save_current_way_tags_to_history, delete_current_way_tags,
  delete_current_way_nodes, insert_new_ways_to_current_table,
}
use openstreetmap_cgimap.WayUpdater.Process.{
  process_way_package, process_modify_ways, process_new_ways, process_delete_ways, write_ways,
  expand_way_bbox,
}
use openstreetmap_cgimap.WayUpdater.Serial.{update_current_ways-rows, write_ways-current_ways}

-- The tables of nodes and relations.
abbrev pub other_tables : Database → List NodeRow × (List CurrentMember × List ElementRow)
other_tables db = (db.current_nodes, (db.current_relation_members, db.current_relations))

-- The other tables are as before, and the ways they refer to are visible if they were.
abbrev pub KeepsUsedWays : Database → Database → Type 0
KeepsUsedWays db db' =
    (other_tables db' ≡ other_tables db)
    × ((j : ℕ)
        → mem_id j (member_ids "Way" db.current_relation_members) ≡ true
        → mem_id j (visible_ids db.current_ways) ≡ true
        → mem_id j (visible_ids db'.current_ways) ≡ true)

write_ways-tables :
    (ways : List WayT) (ids : List ℕ) (s s' : WayUpdater)
    → write_ways ways ids s ≡ ok s'
    → other_tables s'.db ≡ other_tables s.db
unfolding write_ways insert_new_current_way_tags save_current_ways_to_history
    insert_new_current_way_nodes save_current_way_nodes_to_history save_current_way_tags_to_history
write_ways-tables ways ids s s' h = ground arith

update_current_ways-tables :
    (ways : List WayT) (visible : Bool) (s s' : WayUpdater)
    → update_current_ways ways visible s ≡ ok s'
    → other_tables s'.db ≡ other_tables s.db
update_current_ways-tables [] visible s s' h = unfold update_current_ways in ground arith
update_current_ways-tables (w ∷ ws) visible s s' h = unfold update_current_ways in ground arith

insert_new_ways-tables :
    (ways : List WayT) (s s' : WayUpdater)
    → insert_new_ways_to_current_table ways s ≡ ok s'
    → (other_tables s'.db ≡ other_tables s.db)
      × (rows : List ElementRow) × (s'.db.current_ways ≡ s.db.current_ways ++ rows)
unfolding insert_new_ways_to_current_table
insert_new_ways-tables ways s s' h =
    (ground arith, insert_op (ids_mapping s.db.current_ways_id_seq ways) ways, ground arith)

visible-append :
    (j : ℕ) (rs qs : List ElementRow)
    → mem_id j (visible_ids rs) ≡ true
    → mem_id j (visible_ids (rs ++ qs)) ≡ true
unfolding visible_ids
visible-append j [] qs h = cc
visible-append j (r ∷ rs) qs h = ground (arith, visible-append j rs qs)

pub process_new_ways-used :
    (s s' : WayUpdater) → process_new_ways s ≡ ok s' → KeepsUsedWays s.db s'.db
unfolding process_new_ways
process_new_ways-used s s' h =
    let (ids, unique, h1) =
      >>=-eq-ok (check_unique_ids s.create_ways s.create_placeholder_ids) _ h in
    let (s1, inserted, h2) = >>=-eq-ok (insert_new_ways_to_current_table s.create_ways _) _ h1 in
    let (ways, replaced, h3) =
      >>=-eq-ok
        (replace_old_ids_in_ways s1.create_ways s1.ct.created_node_ids s1.ct.created_way_ids) _
        h2 in
    let (u, locked, h4) = >>=-eq-ok (lock_future_nodes ways s1) _ h3 in
    let (s2, written, h5) = >>=-eq-ok (write_ways ways (unique_ids (ids_of ways)) s1) _ h4 in
    let (same, rows, new) = insert_new_ways-tables s.create_ways _ s1 inserted in
    rw (← ok-injective h5) (
      write_ways-tables ways (unique_ids (ids_of ways)) s1 s2 written ∙ same,
      λ j used m.
          rw (write_ways-current_ways ways (unique_ids (ids_of ways)) s1 s2 written)
            (rw new (visible-append j s.db.current_ways rows m)),
    )

process_way_package-used :
    (ids : List ℕ) (p : List WayT) (s s' : WayUpdater)
    → process_way_package ids p s ≡ ok s'
    → (other_tables s'.db ≡ other_tables s.db)
      × (s'.db.current_ways ≡ update_rows true p s.db.current_ways)
unfolding process_way_package delete_current_way_tags delete_current_way_nodes
process_way_package-used ids p s s' h =
    let ids_package = unique_ids (ids_of p) in
    let (u, checked, h1) = >>=-eq-ok (check_current_way_versions p s) _ h in
    let (u', locked, h2) = >>=-eq-ok (lock_future_nodes p s) _ h1 in
    let (s1, updated, h3) = >>=-eq-ok (update_current_ways p true _) _ h2 in
    let (s2, written, h4) = >>=-eq-ok (write_ways p ids_package s1) _ h3 in
    rw (← ok-injective h4) (
      write_ways-tables p ids_package s1 s2 written
          ∙ update_current_ways-tables p true _ s1 updated,
      write_ways-current_ways p ids_package s1 s2 written
          ∙ update_current_ways-rows p true _ s1 updated,
    )

process_way_packages-used :
    (ids : List ℕ) (ps : List (List WayT)) (s s' : WayUpdater)
    → process_packages (process_way_package ids) ps s ≡ ok s'
    → KeepsUsedWays s.db s'.db
unfolding process_packages
process_way_packages-used ids [] s s' h = rw (← ok-injective h) (refl, λ j used m. m)
process_way_packages-used ids (p ∷ ps) s s' h =
    let (s1, first, h1) = >>=-eq-ok (process_way_package ids p s) _ h in
    let (tables, rows) = process_way_package-used ids p s s1 first in
    let (same, visible) = process_way_packages-used ids ps s1 s' h1 in
    let members : s1.db.current_relation_members ≡ s.db.current_relation_members =
      ap (λ t. t.1.0) tables in
    (
      same ∙ tables,
      λ j used m.
          visible j (rw members used)
            (rw rows (visible-update_rows true j p s.db.current_ways refl m)),
    )

pub process_modify_ways-used :
    (s s' : WayUpdater) → process_modify_ways s ≡ ok s' → KeepsUsedWays s.db s'.db
unfolding process_modify_ways
process_modify_ways-used s s' h =
    let (ways, replaced, h1) =
      >>=-eq-ok (replace_old_ids_in_ways s.modify_ways s.ct.created_node_ids s.ct.created_way_ids) _
        h in
    let ids = unique_ids (ids_of ways) in
    let (u, locked, h2) = >>=-eq-ok (lock_current_ways ids s) _ h1 in
    let (ps, built, h3) = >>=-eq-ok (item_packages ways) _ h2 in
    let (s1, processed, h4) = >>=-eq-ok (process_packages (process_way_package ids) ps s) _ h3 in
    rw (← ok-injective h4) (process_way_packages-used ids ps s s1 processed)

determine_already_deleted_ways-db :
    (ways : List WayT) (s s1 : WayUpdater) (ids : List ℕ)
    → determine_already_deleted_ways ways s ≡ ok (s1, ids)
    → s1.db ≡ s.db
unfolding determine_already_deleted_ways
determine_already_deleted_ways-db ways s s1 ids h = ground arith

-- A way that a relation uses is not among those left to delete.
is_way_still_referenced-unused :
    (ways left : List WayT) (s s' : WayUpdater)
    → is_way_still_referenced ways s ≡ ok (s', left)
    → (s'.db ≡ s.db)
      × ((j : ℕ)
          → mem_id j (member_ids "Way" s.db.current_relation_members) ≡ true
          → mem_id j (ids_of left) ≡ false)
unfolding is_way_still_referenced
is_way_still_referenced-unused ways left s s' h =
    let ids = unique_ids (ids_of ways) in
    let column = member_ids "Way" s.db.current_relation_members in
    let (excluded, e, h1) =
      >>=-eq-ok
        (excluded_ids (precondition_failed "Way {:d} is still used by relations {}.")
          (ids_with_flag true ways) (ids_with_flag false ways) (referenced_ids ids column))
        _ h in
    let rest : left ≡ without_ids excluded ways = ground arith in
    (
      ground arith,
      λ j used.
          rw rest (unused_left _ j ways ids column (mem_id-unique_ids j (ids_of ways)) e used),
    )

end_of_deletion-tables :
    (ids : List ℕ) (s s' : WayUpdater)
    → (save_current_ways_to_history ids
          (delete_current_way_nodes ids (delete_current_way_tags ids s))
        >>= λ t. ok (record t { delete_ways = [] }))
      ≡ ok s'
    → (other_tables s'.db ≡ other_tables s.db) × (s'.db.current_ways ≡ s.db.current_ways)
unfolding save_current_ways_to_history delete_current_way_nodes delete_current_way_tags
end_of_deletion-tables ids s s' h = ground arith

pub process_delete_ways-used :
    (s s' : WayUpdater) → process_delete_ways s ≡ ok s' → KeepsUsedWays s.db s'.db
unfolding process_delete_ways
process_delete_ways-used s s' h =
    let (ways, replaced, h1) =
      >>=-eq-ok (replace_old_ids_in_ways s.delete_ways s.ct.created_node_ids s.ct.created_way_ids) _
        h in
    let (u, locked, h2) = >>=-eq-ok (lock_current_ways (unique_ids (ids_of ways)) s) _ h1 in
    let ((s1, ids), determined, h3) = >>=-eq-ok (determine_already_deleted_ways ways s) _ h2 in
    let visible = without_ids ids ways in
    let (u', checked, h4) = >>=-eq-ok (check_current_way_versions visible s1) _ h3 in
    let ((s2, left), unreferenced, h5) = >>=-eq-ok (is_way_still_referenced visible s1) _ h4 in
    let (s3, updated, h6) =
      >>=-eq-ok (update_current_ways left false (expand_way_bbox (unique_ids (ids_of ways)) s2)) _
        h5 in
    let same1 : s1.db ≡ s.db = determine_already_deleted_ways-db ways s s1 ids determined in
    let (same2, unused) = is_way_still_referenced-unused visible left s1 s2 unreferenced in
    let tables3 = update_current_ways-tables left false _ s3 updated in
    let rows3 = update_current_ways-rows left false _ s3 updated in
    let (tables, rows) = end_of_deletion-tables (ids_of left) s3 s' h6 in
    (
      tables ∙ tables3 ∙ ap other_tables (same2 ∙ same1),
      λ j used m. rw rows (
          rw rows3 (
            visible-update_rows false j left s2.db.current_ways (ap not (unused j (rw same1 used)))
              (rw same2 (rw same1 m)))),
    )
