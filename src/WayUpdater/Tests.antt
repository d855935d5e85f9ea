-- ===== src/WayUpdater/Tests.antt =====
-- Runs of the way updater at concrete inputs.
use openstreetmap_cgimap.Prelude.{
  ◌+◌, ◌≡◌, refl, false, some, List, [], ◌∷◌, arith, ℕ-Eq, String-Eq, length,
}
use openstreetmap_cgimap.Prelude.Int.{pos, ℤ-Eq}
use openstreetmap_cgimap.Types.{precondition_failed, Result, ok, err, ObjectType-Eq, Pair-Eq}
use openstreetmap_cgimap.Samples.{sample_ways, an_item}
use openstreetmap_cgimap.Element.Serial.{version_of, Consecutive, changes_of}
use openstreetmap_cgimap.WayUpdater.{WayT, WayUpdater, way_nodes_from}
use openstreetmap_cgimap.WayUpdater.Placeholders.{replace_old_ids_in_ways}
use openstreetmap_cgimap.WayUpdater.Process.{
  process_modify_ways, process_delete_ways, way_updater_calls,
}
use openstreetmap_cgimap.WayUpdater.Serial.{process_modify_ways-serial}

abbrev blocks : List WayT
unfolding way_nodes_from
blocks =
    an_item 7 2 (way_nodes_from 0 (pos 2 ∷ pos 3 ∷ [])) false
    ∷ an_item 8 1 (way_nodes_from 0 (pos 1 ∷ [])) false
    ∷ an_item 7 3 (way_nodes_from 0 (pos 3 ∷ [])) false
    ∷ []

abbrev start : WayUpdater
start = record sample_ways { modify_ways = blocks }

abbrev or_start : Result WayUpdater → WayUpdater
or_start (ok s) = s
or_start (err e) = start

abbrev after : WayUpdater
unfolding process_modify_ways
after = or_start (process_modify_ways start)

goes_through : process_modify_ways start ≡ ok after
unfolding way_updater_calls blocks
goes_through = refl

no_placeholders : replace_old_ids_in_ways blocks [] [] ≡ ok blocks
unfolding replace_old_ids_in_ways blocks way_nodes_from
no_placeholders = refl

process_modify_ways-serial_example :
    Consecutive 2 (changes_of 7 blocks)
    × (version_of 7 after.db.current_ways ≡ some (2 + length (changes_of 7 blocks)))
unfolding blocks
process_modify_ways-serial_example =
    process_modify_ways-serial start after blocks 7 2 goes_through no_placeholders (omega arith)
      refl

-- A way with a node that is not in the table is refused.
unknown_node :
    process_modify_ways
      (record sample_ways { modify_ways = an_item 7 2 (way_nodes_from 0 (pos 4 ∷ [])) false ∷ [] })
    ≡ err (
        precondition_failed
          "Way {:d} requires the nodes with id in {}, which either do not exist, or are not visible.")
unfolding way_updater_calls way_nodes_from
unknown_node = refl

-- Way 7 is a member of relation 9, so it is not deleted.
used_way :
    process_delete_ways (record sample_ways { delete_ways = an_item 7 2 [] false ∷ [] })
    ≡ err (precondition_failed "Way {:d} is still used by relations {}.")
unfolding way_updater_calls
used_way = refl
