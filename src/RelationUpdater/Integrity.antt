-- ===== src/RelationUpdater/Integrity.antt =====
-- Every node and every way that is a member of a relation is visible, and the relation updater
-- keeps it so.
use openstreetmap_cgimap.NodeUpdater.Tables.{unique_ids, mem_id}
use openstreetmap_cgimap.Prelude.{
  ℕ, String, ◌≡◌, refl, ap, ◌∙◌, inl, inr, Bool, true, false, List, [], ◌∷◌, ◌++◌, arith,
  if◌then◌else◌, ◌==◌, ℕ-Eq, String-Eq, Bool-cases, All,
}
use openstreetmap_cgimap.Prelude.Int.{ℤ-Eq}
use openstreetmap_cgimap.Types.{ok, ◌>>=◌, >>=-eq-ok, ok-injective, ObjectType-Eq, Pair-Eq}
use openstreetmap_cgimap.Element.Found.{
  mem_id-unique_ids, mem_id-append, none_missing-all_found, All-append, process_packages-keeps,
}
use openstreetmap_cgimap.Element.{
  ids_of, item_packages, process_packages, check_unique_ids, visible_ids,
}
use openstreetmap_cgimap.Element.Deletion.{without_ids}
use openstreetmap_cgimap.Database.{ElementRow, Database, NodeRow, CurrentWayNode, CurrentMember}
use openstreetmap_cgimap.WayUpdater.Tables.{visible_node_ids}
use openstreetmap_cgimap.RelationUpdater.{MemberT, RelationT, RelationUpdater}
use openstreetmap_cgimap.RelationUpdater.Placeholders.{
  replace_old_ids_in_relations, check_forward_relation_placeholders,
}
use openstreetmap_cgimap.RelationUpdater.Members.{
  ids_of_type, future_member_ids, lock_future_members_nodes, lock_future_members_ways,
  lock_future_members, member_rows, all_member_rows, insert_new_current_relation_members,
  save_current_relation_members_to_history, without_members, delete_current_relation_members,
}
use openstreetmap_cgimap.RelationUpdater.Reference.{
  determine_already_deleted_relations, is_relation_still_referenced,
}
use openstreetmap_cgimap.RelationUpdater.Unused.{is_relation_still_referenced-db}
use openstreetmap_cgimap.RelationUpdater.Tables.{
  insert_new_relations_to_current_table, lock_current_relations, check_current_relation_versions,
  update_current_relations, insert_new_current_relation_tags, save_current_relations_to_history,
  save_current_relation_tags_to_history, delete_current_relation_tags,
}
use openstreetmap_cgimap.RelationUpdater.Process.{
  process_new_relations, process_modify_relations, process_delete_relations,
  process_relation_package, write_relations, expand_relation_bbox,
}

-- A member of the type Node is one of the nodes, and one of the type Way is one of the ways.
abbrev pub is_member_of : List ℕ → List ℕ → String → ℕ → Bool
is_member_of nodes ways type i =
    if type == "Node" then mem_id i nodes else if type == "Way" then mem_id i ways else true

abbrev pub HasVisibleMember : List ℕ → List ℕ → CurrentMember → Type 0
HasVisibleMember nodes ways m = is_member_of nodes ways m.member_type m.member_id ≡ true

-- Every member that is a node or a way is visible.
abbrev pub MembersVisible : Database → Type 0
MembersVisible db =
    All (HasVisibleMember (visible_node_ids db.current_nodes) (visible_ids db.current_ways))
      db.current_relation_members

-- The tables of nodes and ways.
abbrev pub base_tables : Database → List NodeRow × (List ElementRow × List CurrentWayNode)
base_tables db = (db.current_nodes, (db.current_ways, db.current_way_nodes))

-- The tables of nodes and ways are as before, and the members that are nodes or ways are visible
-- if they were.
abbrev pub KeepsMembers : Database → Database → Type 0
KeepsMembers db db' = (base_tables db' ≡ base_tables db) × (MembersVisible db → MembersVisible db')

module _ (nodes ways : List ℕ) where
  member_rows-visible :
      (i : ℕ) (mbrs : List MemberT)
      → ((j : ℕ) → mem_id j (ids_of_type "Node" mbrs) ≡ true → mem_id j nodes ≡ true)
      → ((j : ℕ) → mem_id j (ids_of_type "Way" mbrs) ≡ true → mem_id j ways ≡ true)
      → All (HasVisibleMember nodes ways) (member_rows i mbrs)
  unfolding member_rows ids_of_type
  member_rows-visible i [] f g = tt
  member_rows-visible i (mbr ∷ mbrs) f g = (
    ground (arith, f mbr.member_id, g mbr.member_id),
    member_rows-visible i mbrs (λ j m. f j (ground arith)) (λ j m. g j (ground arith)),
  )

  all_member_rows-visible :
      (relations : List RelationT)
      → ((j : ℕ) → mem_id j (future_member_ids "Node" relations) ≡ true → mem_id j nodes ≡ true)
      → ((j : ℕ) → mem_id j (future_member_ids "Way" relations) ≡ true → mem_id j ways ≡ true)
      → All (HasVisibleMember nodes ways) (all_member_rows relations)
  unfolding all_member_rows future_member_ids
  all_member_rows-visible [] f g = tt
  all_member_rows-visible (x ∷ relations) f g =
      let in_first = λ (type : String) (j : ℕ).
        mem_id-append j (ids_of_type type x.members) (future_member_ids type relations) in
      All-append (HasVisibleMember nodes ways) (member_rows x.id x.members)
        (all_member_rows relations)
        (member_rows-visible x.id x.members (λ j m. f j (ground (arith, in_first "Node" j)))
          (λ j m. g j (ground (arith, in_first "Way" j))))
        (all_member_rows-visible relations (λ j m. f j (ground (arith, in_first "Node" j)))
          (λ j m. g j (ground (arith, in_first "Way" j))))

  without_members-keeps :
      (ids : List ℕ) (ms : List CurrentMember)
      → All (HasVisibleMember nodes ways) ms
      → All (HasVisibleMember nodes ways) (without_members ids ms)
  unfolding without_members
  without_members-keeps ids [] p = tt
  without_members-keeps ids (m ∷ ms) (p, ps) =
      let rest = without_members-keeps ids ms ps in
      elim (Bool-cases (mem_id m.relation_id ids)) [
        | inl removed ↦ rw removed rest
        | inr kept ↦ rw kept (p, rest)
      ]

-- The rows that are written after the members were locked.
locked_rows-visible :
    (relations : List RelationT) (ids : List ℕ) (s : RelationUpdater) {u : Unit {0}}
    → lock_future_members relations ids s ≡ ok u
    → All
        (HasVisibleMember (visible_node_ids s.db.current_nodes) (visible_ids s.db.current_ways))
        (all_member_rows relations)
unfolding lock_future_members lock_future_members_nodes lock_future_members_ways
locked_rows-visible relations ids s h =
    let (u1, nodes, h1) =
      >>=-eq-ok (lock_future_members_nodes (future_member_ids "Node" relations) s) _ h in
    let (u2, ways, h2) =
      >>=-eq-ok (lock_future_members_ways (future_member_ids "Way" relations) s) _ h1 in
    all_member_rows-visible (visible_node_ids s.db.current_nodes) (visible_ids s.db.current_ways)
      relations
      (λ j m.
        none_missing-all_found _ (unique_ids (future_member_ids "Node" relations)) _ j nodes
          (mem_id-unique_ids j (future_member_ids "Node" relations) ∙ m))
      (λ j m.
        none_missing-all_found _ (unique_ids (future_member_ids "Way" relations)) _ j ways
          (mem_id-unique_ids j (future_member_ids "Way" relations) ∙ m))

write_relations-tables :
    (relations : List RelationT) (ids : List ℕ) (s s' : RelationUpdater)
    → write_relations relations ids s ≡ ok s'
    → (base_tables s'.db ≡ base_tables s.db)
      × (s'.db.current_relation_members
          ≡ s.db.current_relation_members ++ all_member_rows relations)
unfolding write_relations insert_new_current_relation_tags save_current_relations_to_history
    insert_new_current_relation_members save_current_relation_members_to_history
    save_current_relation_tags_to_history
write_relations-tables relations ids s s' h = (ground arith, ground arith)

update_current_relations-tables :
    (relations : List RelationT) (visible : Bool) (s s' : RelationUpdater)
    → update_current_relations relations visible s ≡ ok s'
    → (base_tables s'.db ≡ base_tables s.db)
      × (s'.db.current_relation_members ≡ s.db.current_relation_members)
update_current_relations-tables [] visible s s' h =
    unfold update_current_relations in (ground arith, ground arith)
update_current_relations-tables (x ∷ xs) visible s s' h =
    unfold update_current_relations in (ground arith, ground arith)

insert_new_relations-tables :
    (relations : List RelationT) (s s' : RelationUpdater)
    → insert_new_relations_to_current_table relations s ≡ ok s'
    → (base_tables s'.db ≡ base_tables s.db)
      × (s'.db.current_relation_members ≡ s.db.current_relation_members)
unfolding insert_new_relations_to_current_table
insert_new_relations-tables relations s s' h = (ground arith, ground arith)

-- With the same tables of nodes and ways, the members that are visible stay so.
same_members :
    (db db' : Database)
    → base_tables db' ≡ base_tables db
    → All
        (HasVisibleMember (visible_node_ids db.current_nodes) (visible_ids db.current_ways))
        db'.current_relation_members
    → MembersVisible db'
same_members db db' same h =
    let nodes : db'.current_nodes ≡ db.current_nodes = ap (λ t. t.0) same in
    let ways : db'.current_ways ≡ db.current_ways = ap (λ t. t.1.0) same in rw nodes (rw ways h)

write_relations-keeps :
    (relations : List RelationT) (ids : List ℕ) (s s' : RelationUpdater)
    → write_relations relations ids s ≡ ok s'
    → All
        (HasVisibleMember (visible_node_ids s.db.current_nodes) (visible_ids s.db.current_ways))
        (all_member_rows relations)
    → KeepsMembers s.db s'.db
write_relations-keeps relations ids s s' h new =
    let (same, written) = write_relations-tables relations ids s s' h in
    (
      same,
      λ old. same_members s.db s'.db same (
          rw written
            (All-append _ s.db.current_relation_members (all_member_rows relations) old new)),
    )

pub process_new_relations-keeps :
    (s s' : RelationUpdater) → process_new_relations s ≡ ok s' → KeepsMembers s.db s'.db
unfolding process_new_relations
process_new_relations-keeps s s' h =
    let (placeholders, unique, h1) =
      >>=-eq-ok (check_unique_ids s.create_relations s.create_placeholder_ids) _ h in
    let (u, forward, h2) =
      >>=-eq-ok (check_forward_relation_placeholders s.create_relations) _ h1 in
    let (s1, inserted, h3) =
      >>=-eq-ok (insert_new_relations_to_current_table s.create_relations _) _ h2 in
    let (relations, replaced, h4) =
      >>=-eq-ok
        (replace_old_ids_in_relations s1.create_relations s1.ct.created_node_ids
          s1.ct.created_way_ids s1.ct.created_relation_ids)
        _ h3 in
    let ids = unique_ids (ids_of relations) in
    let (u', locked, h5) = >>=-eq-ok (lock_future_members relations ids s1) _ h4 in
    let (s2, written, h6) = >>=-eq-ok (write_relations relations ids s1) _ h5 in
    let (same1, members1) = insert_new_relations-tables s.create_relations _ s1 inserted in
    let (same2, visible2) =
      write_relations-keeps relations ids s1 s2 written
        (locked_rows-visible relations ids s1 locked) in
    rw (← ok-injective h6)
      (same2 ∙ same1, λ old. visible2 (same_members s.db s1.db same1 (rw members1 old)))

process_relation_package-keeps :
    (ids : List ℕ) (p : List RelationT) (s s' : RelationUpdater)
    → process_relation_package ids p s ≡ ok s'
    → KeepsMembers s.db s'.db
unfolding process_relation_package delete_current_relation_tags delete_current_relation_members
process_relation_package-keeps ids p s s' h =
    let ids_package = unique_ids (ids_of p) in
    let (u, checked, h1) = >>=-eq-ok (check_current_relation_versions p s) _ h in
    let (u', locked, h2) = >>=-eq-ok (lock_future_members p ids s) _ h1 in
    let (s1, updated, h3) = >>=-eq-ok (update_current_relations p true _) _ h2 in
    let (s2, written, h4) = >>=-eq-ok (write_relations p ids_package s1) _ h3 in
    let (same1, members1) = update_current_relations-tables p true _ s1 updated in
    let nodes : s1.db.current_nodes ≡ s.db.current_nodes = ap (λ t. t.0) same1 in
    let ways : s1.db.current_ways ≡ s.db.current_ways = ap (λ t. t.1.0) same1 in
    let (same2, visible2) =
      write_relations-keeps p ids_package s1 s2 written
        (rw nodes (rw ways (locked_rows-visible p ids s locked))) in
    rw (← ok-injective h4) (
      same2 ∙ same1,
      λ old. visible2 (
          same_members s.db s1.db same1 (
            rw members1 (without_members-keeps _ _ ids_package s.db.current_relation_members old))),
    )

pub process_modify_relations-keeps :
    (s s' : RelationUpdater) → process_modify_relations s ≡ ok s' → KeepsMembers s.db s'.db
unfolding process_modify_relations
process_modify_relations-keeps s s' h =
    let (relations, replaced, h1) =
      >>=-eq-ok
        (replace_old_ids_in_relations s.modify_relations s.ct.created_node_ids s.ct.created_way_ids
          s.ct.created_relation_ids)
        _ h in
    let ids = unique_ids (ids_of relations) in
    let (u, locked, h2) = >>=-eq-ok (lock_current_relations ids s) _ h1 in
    let (ps, built, h3) = >>=-eq-ok (item_packages relations) _ h2 in
    let (s1, processed, h4) =
      >>=-eq-ok (process_packages (process_relation_package ids) ps s) _ h3 in
    rw (← ok-injective h4) (
      process_packages-keeps (process_relation_package ids) (λ t. KeepsMembers s.db t.db)
        (λ p t t' step held.
          (let (same, visible) = process_relation_package-keeps ids p t t' step in
            (same ∙ held.0, λ old. visible (held.1 old))))
        ps s s1 processed (refl, λ old. old))

determine_already_deleted_relations-db :
    (relations : List RelationT) (s s1 : RelationUpdater) (ids : List ℕ)
    → determine_already_deleted_relations relations s ≡ ok (s1, ids)
    → s1.db ≡ s.db
unfolding determine_already_deleted_relations
determine_already_deleted_relations-db relations s s1 ids h = ground arith

end_of_deletion-tables :
    (ids : List ℕ) (s s' : RelationUpdater)
    → (save_current_relations_to_history ids
          (delete_current_relation_members ids (delete_current_relation_tags ids s))
        >>= λ t. ok (record t { delete_relations = [] }))
      ≡ ok s'
    → (base_tables s'.db ≡ base_tables s.db)
      × (s'.db.current_relation_members ≡ without_members ids s.db.current_relation_members)
unfolding save_current_relations_to_history delete_current_relation_members
    delete_current_relation_tags
end_of_deletion-tables ids s s' h = (ground arith, ground arith)

pub process_delete_relations-keeps :
    (s s' : RelationUpdater) → process_delete_relations s ≡ ok s' → KeepsMembers s.db s'.db
unfolding process_delete_relations
process_delete_relations-keeps s s' h =
    let (relations, replaced, h1) =
      >>=-eq-ok
        (replace_old_ids_in_relations s.delete_relations s.ct.created_node_ids s.ct.created_way_ids
          s.ct.created_relation_ids)
        _ h in
    let ids = unique_ids (ids_of relations) in
    let (u, locked, h2) = >>=-eq-ok (lock_current_relations ids s) _ h1 in
    let ((s1, gone_ids), determined, h3) =
      >>=-eq-ok (determine_already_deleted_relations relations s) _ h2 in
    let visible = without_ids gone_ids relations in
    let (u', checked, h4) = >>=-eq-ok (check_current_relation_versions visible s1) _ h3 in
    let ((s2, left), unreferenced, h5) = >>=-eq-ok (is_relation_still_referenced visible s1) _ h4 in
    let (s3, updated, h6) =
      >>=-eq-ok (update_current_relations left false (expand_relation_bbox ids s2)) _ h5 in
    let same1 : s1.db ≡ s.db =
      determine_already_deleted_relations-db relations s s1 gone_ids determined in
    let same2 : s2.db ≡ s1.db = is_relation_still_referenced-db visible left s1 s2 unreferenced in
    let (same3, members3) = update_current_relations-tables left false _ s3 updated in
    let (same4, members4) = end_of_deletion-tables (ids_of left) s3 s' h6 in
    let same : base_tables s'.db ≡ base_tables s.db =
      same4 ∙ same3 ∙ ap base_tables (same2 ∙ same1) in
    (
      same,
      λ old. same_members s.db s'.db same (
          rw members4 (
            without_members-keeps _ _ (ids_of left) s3.db.current_relation_members
              (rw members3 (rw same2 (rw same1 old))))),
    )
