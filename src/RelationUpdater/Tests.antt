-- ===== src/RelationUpdater/Tests.antt =====
-- Runs of the relation updater at concrete inputs.
use openstreetmap_cgimap.NodeUpdater.Tables.{mem_id}
use openstreetmap_cgimap.Prelude.{
  ℕ, ◌+◌, ◌≡◌, refl, ◌↔◌, Bool, true, false, some, List, [], ◌∷◌, map, arith, ℕ-Eq, String-Eq,
  length,
}
use openstreetmap_cgimap.Prelude.Int.{pos, ℤ-Eq}
use openstreetmap_cgimap.Types.{Result, ok, err, ObjectType-Eq, Pair-Eq}
use openstreetmap_cgimap.Samples.{sample_relations, sample_db, an_item}
use openstreetmap_cgimap.Element.{visible_ids, ids_of}
use openstreetmap_cgimap.Element.Deletion.{ids_with_flag}
use openstreetmap_cgimap.Element.Serial.{version_of, Consecutive, changes_of}
use openstreetmap_cgimap.RelationUpdater.{RelationT, RelationUpdater, MemberT}
use openstreetmap_cgimap.RelationUpdater.Placeholders.{replace_old_ids_in_relations}
use openstreetmap_cgimap.RelationUpdater.Children.{collect_recursive_relation_rel_member_ids}
use openstreetmap_cgimap.RelationUpdater.Descent.{Below, collect-Below, collect-some}
use openstreetmap_cgimap.RelationUpdater.Reference.{is_relation_still_referenced}
use openstreetmap_cgimap.RelationUpdater.Unused.{is_relation_still_referenced-unused}
use openstreetmap_cgimap.RelationUpdater.Process.{
  process_modify_relations, process_delete_relations, relation_updater_calls,
}
use openstreetmap_cgimap.RelationUpdater.Serial.{process_modify_relations-serial}

abbrev member_node : ℕ → MemberT
member_node i = record {
  member_type = "Node";
  member_id = i;
  member_role = "r";
  sequence_id = 1;
  old_member_id = pos i;
}

abbrev blocks : List RelationT
blocks =
    an_item 9 1 (member_node 2 ∷ []) false
    ∷ an_item 11 1 [] false
    ∷ an_item 9 2 (member_node 3 ∷ []) false
    ∷ []

abbrev start : RelationUpdater
start = record sample_relations { modify_relations = blocks }

abbrev or_start : Result RelationUpdater → RelationUpdater
or_start (ok s) = s
or_start (err e) = start

abbrev after : RelationUpdater
unfolding process_modify_relations
after = or_start (process_modify_relations start)

goes_through : process_modify_relations start ≡ ok after
unfolding relation_updater_calls
goes_through = refl

no_placeholders : replace_old_ids_in_relations blocks [] [] [] ≡ ok blocks
unfolding replace_old_ids_in_relations
no_placeholders = refl

process_modify_relations-serial_example :
    Consecutive 1 (changes_of 9 blocks)
    × (version_of 9 after.db.current_relations ≡ some (1 + length (changes_of 9 blocks)))
process_modify_relations-serial_example =
    process_modify_relations-serial start after blocks 9 1 goes_through no_placeholders
      (omega arith) refl

-- Relation 9 is below relation 11, over relation 10.
collected : collect_recursive_relation_rel_member_ids (11 ∷ []) sample_db ≡ some (9 ∷ 10 ∷ [])
unfolding collect_recursive_relation_rel_member_ids
collected = refl

collect-Below_example : (mem_id 9 (9 ∷ 10 ∷ []) ≡ true) ↔ Below sample_db (11 ∷ []) 9
collect-Below_example = collect-Below sample_db (11 ∷ []) (9 ∷ 10 ∷ []) 9 collected

collect-some_example :
    (children : List ℕ) × (collect_recursive_relation_rel_member_ids (11 ∷ []) sample_db
      ≡ some children)
collect-some_example = collect-some sample_db (11 ∷ [])

abbrev both : List RelationT
both = an_item 9 1 [] true ∷ an_item 11 1 [] true ∷ an_item 10 1 [] true ∷ []

-- All three relations can be deleted together.
all_left : is_relation_still_referenced both sample_relations ≡ ok (sample_relations, both)
unfolding is_relation_still_referenced
all_left = refl

flagged : mem_id 9 (ids_with_flag true both) ≡ true
unfolding ids_with_flag
flagged = refl

visible : mem_id 10 (visible_ids sample_db.current_relations) ≡ true
unfolding visible_ids
visible = refl

is_relation_still_referenced-unused_example : mem_id 10 (ids_of both) ≡ true
is_relation_still_referenced-unused_example =
    is_relation_still_referenced-unused both both sample_relations sample_relations 10 9 all_left
      flagged refl visible refl

abbrev deleted_ids : Result RelationUpdater → List (ℕ × Bool)
deleted_ids (err e) = []
deleted_ids (ok s) = map (λ r. (r.id, r.visible)) s.db.current_relations

-- With different flags in one block, relation 9 is deleted although relation 10, which is skipped,
-- has it as a member.
dangling_member :
    deleted_ids (
      process_delete_relations (record sample_relations {
        delete_relations = an_item 9 1 [] false ∷ an_item 10 1 [] true ∷ [];
      }))
    ≡ (9, false) ∷ (10, true) ∷ (11, true) ∷ []
unfolding relation_updater_calls
dangling_member = refl
