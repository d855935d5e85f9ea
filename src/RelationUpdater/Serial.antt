-- ===== src/RelationUpdater/Serial.antt =====
-- Modifications of relations are serialised, and what they leave alone.
use openstreetmap_cgimap.NodeUpdater.Tables.{unique_ids}
use openstreetmap_cgimap.Prelude.{
  ℕ, suc, ◌+◌, ◌<◌, ◌≡◌, sym, ap, ◌∙◌, Bool, true, some, List, [], ◌∷◌, arith, ℕ-Eq, String-Eq,
  length,
}
use openstreetmap_cgimap.Prelude.Int.{ℤ-Eq}
use openstreetmap_cgimap.Types.{ok, >>=-eq-ok, ok-injective, ObjectType-Eq, Pair-Eq}
use openstreetmap_cgimap.Element.{ids_of, item_packages, process_packages, update_rows}
use openstreetmap_cgimap.Element.Serial.{
  version_of, Consecutive, changes_of, all_agree, check_versions-all_agree, update_rows-nil,
  process_packages-serial,
}
use openstreetmap_cgimap.Packages.{u32_mod}
use openstreetmap_cgimap.RelationUpdater.{MemberT, RelationT, RelationUpdater}
use openstreetmap_cgimap.WayUpdater.Placeholders.{duplicate_way_placeholder}
use openstreetmap_cgimap.RelationUpdater.Placeholders.{
  PlaceholderMaps, replace_old_ids_in_relations, replace_ids_in_relations,
  replace_old_ids_in_relation_member, replace_old_relation_id, duplicate_relation_placeholder,
}
use openstreetmap_cgimap.NodeUpdater.Placeholders.{placeholder_map, duplicate_placeholder}
use openstreetmap_cgimap.RelationUpdater.Tables.{
  lock_current_relations, check_current_relation_versions, update_current_relations,
  insert_new_current_relation_tags, save_current_relations_to_history,
  save_current_relation_tags_to_history, delete_current_relation_tags,
}
use openstreetmap_cgimap.RelationUpdater.Members.{
  lock_future_members, insert_new_current_relation_members,
  save_current_relation_members_to_history, delete_current_relation_members,
}
use openstreetmap_cgimap.RelationUpdater.Process.{
  process_relation_package, process_modify_relations, write_relations,
}

pub write_relations-current_relations :
    (relations : List RelationT) (ids : List ℕ) (s s' : RelationUpdater)
    → write_relations relations ids s ≡ ok s'
    → s'.db.current_relations ≡ s.db.current_relations
unfolding write_relations insert_new_current_relation_tags save_current_relations_to_history
    insert_new_current_relation_members save_current_relation_members_to_history
    save_current_relation_tags_to_history
write_relations-current_relations relations ids s s' h = ground arith

pub update_current_relations-rows :
    (relations : List RelationT) (visible : Bool) (s s' : RelationUpdater)
    → update_current_relations relations visible s ≡ ok s'
    → s'.db.current_relations ≡ update_rows visible relations s.db.current_relations
update_current_relations-rows [] visible s s' h =
    unfold update_current_relations in
    ground (arith, update_rows-nil {M = MemberT} visible [] s.db.current_relations)
update_current_relations-rows (w ∷ ws) visible s s' h =
    unfold update_current_relations in ground arith

process_relation_package-step :
    (ids : List ℕ) (p : List RelationT) (s s' : RelationUpdater)
    → process_relation_package ids p s ≡ ok s'
    → (all_agree p s.db.current_relations ≡ true)
      × (s'.db.current_relations ≡ update_rows true p s.db.current_relations)
unfolding process_relation_package check_current_relation_versions delete_current_relation_tags
    delete_current_relation_members
process_relation_package-step ids p s s' h =
    let (u, checked, h1) = >>=-eq-ok (check_current_relation_versions p s) _ h in
    let (u', locked, h2) = >>=-eq-ok (lock_future_members p ids s) _ h1 in
    let (s1, updated, h3) = >>=-eq-ok (update_current_relations p true _) _ h2 in
    let (s2, written, h4) = >>=-eq-ok (write_relations p (unique_ids (ids_of p)) s1) _ h3 in
    (
      check_versions-all_agree _ p s.db.current_relations checked,
      rw (← ok-injective h4) (
          write_relations-current_relations p (unique_ids (ids_of p)) s1 s2 written
          ∙ update_current_relations-rows p true _ s1 updated),
    )

replace_ids_in_relations-length :
    (maps : PlaceholderMaps) (relations : List RelationT) {relations' : List RelationT}
    → replace_ids_in_relations maps relations ≡ ok relations'
    → length relations' ≡ length relations
unfolding replace_ids_in_relations
replace_ids_in_relations-length maps [] h = ground arith
replace_ids_in_relations-length maps (cw ∷ relations) h =
    let (i, e1, h1) = >>=-eq-ok (replace_old_relation_id maps.map_relations cw) _ h in
    let (wns, e2, h2) = >>=-eq-ok (replace_old_ids_in_relation_member maps cw.members) _ h1 in
    let (relations', e3, h3) = >>=-eq-ok (replace_ids_in_relations maps relations) _ h2 in
    rw (← ok-injective h3) (ap suc (replace_ids_in_relations-length maps relations e3))

replace_old_ids_in_relations-length :
    (s : RelationUpdater) {relations' : List RelationT}
    → replace_old_ids_in_relations s.modify_relations s.ct.created_node_ids s.ct.created_way_ids
        s.ct.created_relation_ids
      ≡ ok relations'
    → length relations' ≡ length s.modify_relations
unfolding replace_old_ids_in_relations
replace_old_ids_in_relations-length s h =
    let (m, built, h1) =
      >>=-eq-ok (placeholder_map duplicate_relation_placeholder s.ct.created_relation_ids []) _ h in
    let (m', built', h2) =
      >>=-eq-ok (placeholder_map duplicate_way_placeholder s.ct.created_way_ids []) _ h1 in
    let (m'', built'', h3) =
      >>=-eq-ok (placeholder_map duplicate_placeholder s.ct.created_node_ids []) _ h2 in
    replace_ids_in_relations-length (record { map_nodes = m''; map_ways = m'; map_relations = m })
      s.modify_relations h3

-- When the modifications of relations go through, they are the relations of the buffer with the placeholder
-- ids replaced, and for a relation that is in the table with the version v: its modifications name the
-- versions v, v + 1, … in the order of the message, and the table then has the version v plus
-- their number. The condition is that the counters of the packages do not wrap around.
pub process_modify_relations-serial :
    (s s' : RelationUpdater) (relations : List RelationT) (i v : ℕ)
    → process_modify_relations s ≡ ok s'
    → replace_old_ids_in_relations s.modify_relations s.ct.created_node_ids s.ct.created_way_ids
        s.ct.created_relation_ids
      ≡ ok relations
    → length s.modify_relations < u32_mod
    → version_of i s.db.current_relations ≡ some v
    → Consecutive v (changes_of i relations)
      × (version_of i s'.db.current_relations ≡ some (v + length (changes_of i relations)))
unfolding process_modify_relations
process_modify_relations-serial s s' relations i v h replaced small e =
    let (relations0, replaced0, h1) =
      >>=-eq-ok
        (replace_old_ids_in_relations s.modify_relations s.ct.created_node_ids s.ct.created_way_ids
          s.ct.created_relation_ids)
        _ h in
    let same : relations0 ≡ relations = ok-injective (sym replaced0 ∙ replaced) in
    let ids = unique_ids (ids_of relations0) in
    let (u, locked, h2) = >>=-eq-ok (lock_current_relations ids s) _ h1 in
    let (ps, built, h3) = >>=-eq-ok (item_packages relations0) _ h2 in
    let (s1, processed, h4) =
      >>=-eq-ok (process_packages (process_relation_package ids) ps s) _ h3 in
    let fits : length relations0 < u32_mod =
      rw (replace_old_ids_in_relations-length s replaced0) small in
    rw (← same) (
      rw (← ok-injective h4) (
        process_packages-serial (process_relation_package ids)
          (λ (t : RelationUpdater). t.db.current_relations) (process_relation_package-step ids)
          relations0 ps i v s s1 fits built processed e))
