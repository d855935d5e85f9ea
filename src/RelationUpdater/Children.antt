-- ===== src/RelationUpdater/Children.antt =====
-- relation_updater.cpp: the relations that are members of relations, at any depth.
use openstreetmap_cgimap.NodeUpdater.Tables.{mem_id, insert_id, unique_ids}
use openstreetmap_cgimap.Prelude.{
  ℕ, zero, suc, Option, none, some, List, [], ◌∷◌, if◌then◌else◌, ℕ-Eq, String-Eq, length,
}
use openstreetmap_cgimap.Prelude.Int.{ℤ-Eq}
use openstreetmap_cgimap.Types.{ObjectType-Eq, Pair-Eq}
use openstreetmap_cgimap.Element.{row_ids}
use openstreetmap_cgimap.RelationUpdater.Changes.{member_ids_of}
use openstreetmap_cgimap.Database.{ElementRow, Database}

-- The ids of a list that are in the table of the relations.
unfoldable pub existing : List ℕ → List ElementRow → List ℕ
existing [] rows = []
existing (i ∷ is) rows = if mem_id i (row_ids rows) then i ∷ existing is rows else existing is rows

-- The query calc_child_relation_ids_for_relation_ids: the relations that are members of those.
unfoldable pub child_relation_ids : List ℕ → Database → List ℕ
unfolding existing member_ids_of unique_ids
child_relation_ids ids db =
    unique_ids
      (member_ids_of "Relation" (existing ids db.current_relations) db.current_relation_members)

-- The loop over the rows: the relations found so far, and those to look at in the next iteration.
unfoldable pub insert_children : List ℕ → List ℕ → List ℕ → List ℕ × List ℕ
unfolding insert_id
insert_children [] transitive next = (transitive, next)
insert_children (rel_id ∷ rest) transitive next =
    let seen = mem_id rel_id transitive in
    insert_children rest (if seen then transitive else insert_id rel_id transitive)
      (if seen then next else insert_id rel_id next)

-- The do-while loop, on fuel: `none` when the fuel is used up.
unfoldable pub collect_loop : ℕ → List ℕ → List ℕ → Database → Option (List ℕ)
unfolding child_relation_ids insert_children
collect_loop zero ids transitive db = none
collect_loop (suc fuel) ids transitive db =
    let step = insert_children (child_relation_ids ids db) transitive [] in
    elim step.1 [ [] ↦ some step.0 | i ∷ is ↦ collect_loop fuel (i ∷ is) step.0 db ]

-- Every iteration but the last finds a relation more, and all are ids of members.
abbrev pub collect_fuel : Database → ℕ
collect_fuel db = suc (length db.current_relation_members)

unfoldable pub collect_recursive_relation_rel_member_ids : List ℕ → Database → Option (List ℕ)
unfolding collect_loop
collect_recursive_relation_rel_member_ids [] db = some []
collect_recursive_relation_rel_member_ids (i ∷ is) db =
    collect_loop (collect_fuel db) (i ∷ is) [] db
