-- ===== src/RelationUpdater/Unused.antt =====
-- A relation that is left to delete is no member of a visible relation that stays.
use openstreetmap_cgimap.NodeUpdater.Tables.{unique_ids, mem_id}
use openstreetmap_cgimap.Prelude.{
  ap, Bool-cases, ℕ, ◌≡◌, refl, inl, inr, true, false, not, ◌&&◌, some, List, [], ◌∷◌, ◌++◌, arith,
  ℕ-Eq, String-Eq, Option-cases,
}
use openstreetmap_cgimap.Prelude.Int.{ℤ-Eq}
use openstreetmap_cgimap.Types.{precondition_failed, ok, >>=-eq-ok, ObjectType-Eq, Pair-Eq}
use openstreetmap_cgimap.Element.{ids_of, visible_ids}
use openstreetmap_cgimap.Element.Deletion.{ids_with_flag, without_ids}
use openstreetmap_cgimap.Element.Found.{mem_id-append, mem_id-unique_ids}
use openstreetmap_cgimap.Element.Unused.{
  excluded_ids-with_flag, mem_id-with_flag, mem_id-without_ids, mem_id-referenced_ids,
}
use openstreetmap_cgimap.NodeUpdater.Reference.{referenced_ids, excluded_ids}
use openstreetmap_cgimap.RelationUpdater.{RelationT, RelationUpdater}
use openstreetmap_cgimap.RelationUpdater.Children.{collect_recursive_relation_rel_member_ids}
use openstreetmap_cgimap.RelationUpdater.Descent.{
  Below, collect-Below, is_member, row-member_ids_of,
}
use openstreetmap_cgimap.RelationUpdater.Changes.{member_ids_of}
use openstreetmap_cgimap.RelationUpdater.Reference.{
  outside_relations, used_outside, extend_deletion_block_to_relation_children,
  remove_blocked_relations_from_deletion_list, is_relation_still_referenced,
}
use openstreetmap_cgimap.Database.{ElementRow, Database}

mem_id-outside_relations :
    (p : ℕ) (ids : List ℕ) (rows : List ElementRow)
    → mem_id p (outside_relations ids rows) ≡ (mem_id p (visible_ids rows) && not (mem_id p ids))
unfolding outside_relations visible_ids
mem_id-outside_relations p ids [] = refl
mem_id-outside_relations p ids (r ∷ rs) = ground (arith, mem_id-outside_relations p ids rs)

-- A member of a visible relation that is not in the list is used outside.
used_outside-member :
    (p x : ℕ) (ids : List ℕ) (db : Database)
    → mem_id x ids ≡ true
    → mem_id p ids ≡ false
    → mem_id p (visible_ids db.current_relations) ≡ true
    → is_member db p x ≡ true
    → mem_id x (used_outside ids db) ≡ true
unfolding used_outside
used_outside-member p x ids db known outside visible h =
    let column =
      member_ids_of "Relation" (outside_relations ids db.current_relations)
        db.current_relation_members in
    let used : mem_id x column ≡ true =
      row-member_ids_of p x (outside_relations ids db.current_relations) db.current_relation_members
        (ground (arith, mem_id-outside_relations p ids db.current_relations)) (ground arith) in
    ground (arith, mem_id-referenced_ids x (unique_ids ids) column, mem_id-unique_ids x ids)

-- The relations to exclude: those used directly, and the ones with the flag below those.
extended_lem :
    (x : ℕ) (direct_ids with_flag excluded : List ℕ) (db : Database) {all : List ℕ}
    → extend_deletion_block_to_relation_children direct_ids with_flag excluded db ≡ some all
    → mem_id x with_flag ≡ true
    → (children : List ℕ) × (collect_recursive_relation_rel_member_ids direct_ids db
        ≡ some children)
      × (all ≡ unique_ids (excluded ++ referenced_ids children with_flag))
unfolding extend_deletion_block_to_relation_children
extended_lem x direct_ids [] excluded db h flagged = cc
extended_lem x direct_ids (i ∷ is) excluded db h flagged =
    elim (Option-cases (collect_recursive_relation_rel_member_ids direct_ids db)) [
      | inl stuck ↦ cc
      | inr (children, done) ↦ (children, done, ground arith)
    ]

-- What the function returns, by the steps of the function.
left_lem :
    (relations left : List RelationT) (s s' : RelationUpdater)
    → is_relation_still_referenced relations s ≡ ok (s', left)
    → (direct excluded : List ℕ) × (excluded_ids
          (precondition_failed "The relation {:d} is used in relations {}.")
          (ids_with_flag true relations)
          (ids_with_flag false relations)
          (used_outside (ids_of relations) s.db)
        ≡ ok direct)
      × (extend_deletion_block_to_relation_children
            (used_outside (ids_of relations) s.db)
            (ids_with_flag true relations)
            direct
            s.db
          ≡ some excluded)
      × (left ≡ without_ids excluded relations)
      × (s'.db ≡ s.db)
unfolding is_relation_still_referenced remove_blocked_relations_from_deletion_list
left_lem relations left s s' h =
    let (direct, e, h1) =
      >>=-eq-ok
        (excluded_ids (precondition_failed "The relation {:d} is used in relations {}.")
          (ids_with_flag true relations) (ids_with_flag false relations)
          (used_outside (ids_of relations) s.db))
        _ h in
    elim (Option-cases (
      extend_deletion_block_to_relation_children (used_outside (ids_of relations) s.db)
        (ids_with_flag true relations) direct s.db)) [
          | inl stuck ↦ cc
          | inr (excluded, done) ↦ (direct, excluded, e, done, ground arith, ground arith)
        ]

-- A deletion with the flag if-unused leaves no dangling member: where a relation with the flag is
-- left to delete and a visible relation of the table has it as a member, that relation is left to
-- delete too.
pub is_relation_still_referenced-unused :
    (relations left : List RelationT) (s s' : RelationUpdater) (p x : ℕ)
    → is_relation_still_referenced relations s ≡ ok (s', left)
    → mem_id x (ids_with_flag true relations) ≡ true
    → mem_id x (ids_of left) ≡ true
    → mem_id p (visible_ids s.db.current_relations) ≡ true
    → is_member s.db p x ≡ true
    → mem_id p (ids_of left) ≡ true
is_relation_still_referenced-unused relations left s s' p x h flagged is_left visible member =
    let ids = ids_of relations in
    let with_flag = ids_with_flag true relations in
    let without_flag = ids_with_flag false relations in
    let used = used_outside ids s.db in
    let (direct, excluded, split, extended, rest, same) = left_lem relations left s s' h in
    let (children, collected, all) = extended_lem x used with_flag direct s.db extended flagged in
    let (to_below, to_children) = collect-Below s.db used children p collected in
    let (to_below_x, to_children_x) = collect-Below s.db used children x collected in
    let kept : mem_id x excluded ≡ false =
      ground (arith, mem_id-without_ids x excluded relations, rw rest at is_left) in
    let x_known : mem_id x ids ≡ true = ground (arith, mem_id-with_flag x relations) in
    let not_child : mem_id x children ≡ false = ground (
      arith,
      rw all at kept,
      mem_id-unique_ids x (direct ++ referenced_ids children with_flag),
      mem_id-append x direct (referenced_ids children with_flag),
      mem_id-referenced_ids x children with_flag,
    ) in
    let not_direct : mem_id x used ≡ false = ground (
      arith,
      rw all at kept,
      mem_id-unique_ids x (direct ++ referenced_ids children with_flag),
      mem_id-append x direct (referenced_ids children with_flag),
      excluded_ids-with_flag _ x with_flag without_flag used split,
    ) in
    let p_known : mem_id p ids ≡ true = elim (Bool-cases (mem_id p ids)) [
      | inl known ↦ known
      | inr outside ↦ cc (used_outside-member p x ids s.db x_known outside visible member)
    ] in
    let p_not_used : mem_id p used ≡ false = elim (Bool-cases (mem_id p used)) [
      | inl root ↦ cc (to_children_x (Below.direct p x root member))
      | inr other ↦ other
    ] in
    let p_not_child : mem_id p children ≡ false = elim (Bool-cases (mem_id p children)) [
      | inl child ↦ cc (to_children_x (Below.deeper p x (to_below child) member))
      | inr other ↦ other
    ] in
    rw rest (
      ground (
        arith,
        mem_id-without_ids p excluded relations,
        ap (mem_id p) all,
        mem_id-unique_ids p (direct ++ referenced_ids children with_flag),
        mem_id-append p direct (referenced_ids children with_flag),
        mem_id-referenced_ids p children with_flag,
        excluded_ids-with_flag _ p with_flag without_flag used split,
      ))

pub is_relation_still_referenced-db :
    (relations left : List RelationT) (s s' : RelationUpdater)
    → is_relation_still_referenced relations s ≡ ok (s', left)
    → s'.db ≡ s.db
is_relation_still_referenced-db relations left s s' h =
    let (direct, excluded, split, extended, rest, same) = left_lem relations left s s' h in same
