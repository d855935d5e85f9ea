-- ===== src/Upload/Tests.antt =====
-- A diff upload from its text to the tables and the answer.
use openstreetmap_cgimap.Prelude.{
  ℕ, String, ◌≡◌, refl, true, Option, none, some, List, [], ◌∷◌, map, ℕ-Eq, String-Eq,
}
use openstreetmap_cgimap.Prelude.Int.{ℤ, pos, ◌+ℤ◌, ◌*ℤ◌, ltb_ℤ, ℤ-Eq}
use openstreetmap_cgimap.StdMap.{insert_all}
use openstreetmap_cgimap.Types.{Result, ok, err, ObjectType-Eq, Pair-Eq}
use openstreetmap_cgimap.Prelude.Text.{codes}
use openstreetmap_cgimap.Number.{from_chars_int64}
use openstreetmap_cgimap.Double.{DoubleOps}
use openstreetmap_cgimap.OsmObject.{Limits, IsWithin}
use openstreetmap_cgimap.Samples.{sample_upload, sample_db}
use openstreetmap_cgimap.StdMap.{insert_all}
use openstreetmap_cgimap.Database.{CurrentWayNode}
use openstreetmap_cgimap.Tracking.{diff_row, map_create_ids, map_modify_ids, DiffResult}
use openstreetmap_cgimap.XmlParser.{Event}
use openstreetmap_cgimap.XmlParser.Reader.{Element, element, no_elements, more, events}
use openstreetmap_cgimap.NodeUpdater.Process.{updater_calls}
use openstreetmap_cgimap.WayUpdater.Process.{way_updater_calls}
use openstreetmap_cgimap.WayUpdater.Tables.{visible_node_ids}
use openstreetmap_cgimap.RelationUpdater.Process.{relation_updater_calls}
use openstreetmap_cgimap.Element.{visible_ids}
use openstreetmap_cgimap.Upload.{Upload, upload_message}
use openstreetmap_cgimap.Samples.{sample_changesets, sample_changeset, sample_settings}
use openstreetmap_cgimap.Changeset.{ChangesetUpdater, ChangesetRow, changeset_rows}
use openstreetmap_cgimap.Upload.Responder.{UserLimits, changeset_upload}
use openstreetmap_cgimap.Upload.Allowed.{changes, changeset_upload-IsWithin}
use openstreetmap_cgimap.Prelude.{◌+◌, ◌≤◌, ◌<◌, ◌^◌, arith}
use openstreetmap_cgimap.Upload.Integrity.{IsIntact, upload_message-IsIntact}

abbrev limits : Limits
limits = record { element_max_tags = some 2; way_max_nodes = 2; relation_max_members = some 2 }

-- Whole numbers in place of doubles, and no division.
abbrev integers : DoubleOps ℤ
integers = record {
  lit = λ z. z;
  add = λ a b. a +ℤ b;
  mul = λ a b. a *ℤ b;
  div = λ a b. a;
  lt = ltb_ℤ;
  is_finite = λ _. true;
  round = λ z. z;
  from_chars = λ s. from_chars_int64 (codes s);
}

abbrev new_node : Element
new_node =
    element "node" (("id", "-1") ∷ ("changeset", "1") ∷ ("lat", "10") ∷ ("lon", "20") ∷ [])
      no_elements

abbrev new_way : Element
new_way = element "way" (("id", "-1") ∷ ("changeset", "1") ∷ []) (
    more (element "nd" (("ref", "-1") ∷ []) no_elements)
      (more (element "nd" (("ref", "2") ∷ []) no_elements) no_elements))

abbrev changed_relation : Element
changed_relation = element "relation" (("id", "9") ∷ ("changeset", "1") ∷ ("version", "1") ∷ []) (
    more (element "member" (("type", "way") ∷ ("ref", "-1") ∷ ("role", "") ∷ []) no_elements)
      no_elements)

abbrev doc : Element
doc = element "osmChange" [] (
    more (element "create" [] (more new_node (more new_way no_elements)))
      (more (element "modify" [] (more changed_relation no_elements)) no_elements))

abbrev parse_memory : String → List Event × Option String
parse_memory _ = (events doc, none)

abbrev or_start : Result (Upload × List DiffResult) → Upload × List DiffResult
or_start (ok r) = r
or_start (err e) = (sample_upload, [])

abbrev after : Upload × List DiffResult
unfolding upload_message
after = or_start (upload_message integers limits parse_memory (pos 1) "" sample_upload)

goes_through :
    upload_message integers limits parse_memory (pos 1) "" sample_upload ≡ ok (after.0, after.1)
unfolding upload_message events updater_calls way_updater_calls relation_updater_calls diff_row
    map_create_ids insert_all map_modify_ids
goes_through = refl

sample-IsIntact : IsIntact sample_db
unfolding visible_node_ids visible_ids
sample-IsIntact = ((refl, (refl, tt)), (refl, (refl, (refl, (refl, tt)))))

upload_message-IsIntact_example : IsIntact after.0.db
upload_message-IsIntact_example =
    upload_message-IsIntact integers limits parse_memory (pos 1) "" doc sample_upload after.0
      after.1 refl goes_through sample-IsIntact

abbrev nodes_of_each : List CurrentWayNode → List (ℕ × ℕ)
nodes_of_each = map (λ (w : CurrentWayNode). (w.way_id, w.node_id))

-- The new way 9 has the new node 4 and the node 2.
new_way_nodes : nodes_of_each after.0.db.current_way_nodes ≡ (7, 1) ∷ (7, 2) ∷ (9, 4) ∷ (9, 2) ∷ []
unfolding upload_message events updater_calls way_updater_calls relation_updater_calls diff_row
    map_create_ids insert_all map_modify_ids
new_way_nodes = refl

abbrev user_limits : UserLimits
user_limits = record { max_changes = some 3; max_bbox_size = none }

abbrev responder_or_start :
    Result (ChangesetUpdater × (Upload × List DiffResult))
    → ChangesetUpdater × (Upload × List DiffResult)
responder_or_start (ok r) = r
responder_or_start (err e) = (sample_changesets, (sample_upload, []))

abbrev answered : ChangesetUpdater × (Upload × List DiffResult)
unfolding changeset_upload
answered = responder_or_start (
    changeset_upload integers limits sample_settings user_limits parse_memory 1 "" sample_changesets
      sample_upload)

is_answered :
    changeset_upload integers limits sample_settings user_limits parse_memory 1 "" sample_changesets
      sample_upload
    ≡ ok (answered.0, (answered.1.0, answered.1.1))
unfolding changeset_upload upload_message events updater_calls way_updater_calls
    relation_updater_calls diff_row map_create_ids insert_all map_modify_ids
is_answered = refl

few : 4 + changes answered.1.0 < 2 ^ 32
unfolding changeset_upload upload_message events updater_calls way_updater_calls
    relation_updater_calls diff_row map_create_ids insert_all map_modify_ids changes answered
few = omega arith

changeset_upload-IsWithin_example :
    ◌≡◌ {A = ℕ} 5 5
    × (2000 ≤ sample_changeset.closed_at)
    × IsWithin (some 3) (changes answered.1.0)
    × ((r' : ChangesetRow) × (changeset_rows 1 answered.0.changesets ≡ r' ∷ [])
        × (r'.num_changes ≡ 4 + changes answered.1.0)
        × (r'.num_changes ≤ 10)
        × (r'.closed_at ≤ 1000 + 86400))
changeset_upload-IsWithin_example =
    changeset_upload-IsWithin integers limits sample_settings user_limits parse_memory 1 ""
      sample_changesets answered.0 sample_upload answered.1.0 answered.1.1 sample_changeset
      is_answered refl few
