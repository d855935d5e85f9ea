-- ===== src/WayUpdater/Serial.antt =====
-- Modifications of ways are serialised, and what they leave alone.
use openstreetmap_cgimap.NodeUpdater.Tables.{unique_ids}
use openstreetmap_cgimap.Prelude.{
  ℕ, suc, ◌+◌, ◌<◌, ◌≡◌, sym, ap, ◌∙◌, Bool, true, some, List, [], ◌∷◌, arith, ℕ-Eq, String-Eq,
  length,
}
use openstreetmap_cgimap.Prelude.Int.{ℤ, ℤ-Eq}
use openstreetmap_cgimap.StdMap.{StdMap}
use openstreetmap_cgimap.Types.{ok, >>=-eq-ok, ok-injective, ObjectType-Eq, Pair-Eq}
use openstreetmap_cgimap.Element.{ids_of, item_packages, process_packages, update_rows}
use openstreetmap_cgimap.Element.Serial.{
  version_of, Consecutive, changes_of, all_agree, check_versions-all_agree, update_rows-nil,
  process_packages-serial,
}
use openstreetmap_cgimap.Packages.{u32_mod}
use openstreetmap_cgimap.WayUpdater.{WayNodeT, WayT, WayUpdater}
use openstreetmap_cgimap.WayUpdater.Placeholders.{
  replace_old_ids_in_ways, replace_ids_in_ways, replace_old_ids_in_way_member, replace_old_way_id,
  duplicate_way_placeholder,
}
use openstreetmap_cgimap.NodeUpdater.Placeholders.{placeholder_map, duplicate_placeholder}
use openstreetmap_cgimap.WayUpdater.Tables.{
  lock_current_ways, check_current_way_versions, lock_future_nodes, update_current_ways,
  insert_new_current_way_tags, insert_new_current_way_nodes, save_current_ways_to_history,
  save_current_way_nodes_to_history, save_current_way_tags_to_history, delete_current_way_tags,
  delete_current_way_nodes,
}
use openstreetmap_cgimap.WayUpdater.Process.{process_way_package, process_modify_ways, write_ways}

pub write_ways-current_ways :
    (ways : List WayT) (ids : List ℕ) (s s' : WayUpdater)
    → write_ways ways ids s ≡ ok s'
    → s'.db.current_ways ≡ s.db.current_ways
unfolding write_ways insert_new_current_way_tags save_current_ways_to_history
    insert_new_current_way_nodes save_current_way_nodes_to_history save_current_way_tags_to_history
write_ways-current_ways ways ids s s' h = ground arith

pub update_current_ways-rows :
    (ways : List WayT) (visible : Bool) (s s' : WayUpdater)
    → update_current_ways ways visible s ≡ ok s'
    → s'.db.current_ways ≡ update_rows visible ways s.db.current_ways
update_current_ways-rows [] visible s s' h =
    unfold update_current_ways in
    ground (arith, update_rows-nil {M = WayNodeT} visible [] s.db.current_ways)
update_current_ways-rows (w ∷ ws) visible s s' h = unfold update_current_ways in ground arith

process_way_package-step :
    (ids : List ℕ) (p : List WayT) (s s' : WayUpdater)
    → process_way_package ids p s ≡ ok s'
    → (all_agree p s.db.current_ways ≡ true)
      × (s'.db.current_ways ≡ update_rows true p s.db.current_ways)
unfolding process_way_package check_current_way_versions delete_current_way_tags
    delete_current_way_nodes
process_way_package-step ids p s s' h =
    let (u, checked, h1) = >>=-eq-ok (check_current_way_versions p s) _ h in
    let (u', locked, h2) = >>=-eq-ok (lock_future_nodes p s) _ h1 in
    let (s1, updated, h3) = >>=-eq-ok (update_current_ways p true _) _ h2 in
    let (s2, written, h4) = >>=-eq-ok (write_ways p (unique_ids (ids_of p)) s1) _ h3 in
    (
      check_versions-all_agree _ p s.db.current_ways checked,
      rw (← ok-injective h4) (
          write_ways-current_ways p (unique_ids (ids_of p)) s1 s2 written
          ∙ update_current_ways-rows p true _ s1 updated),
    )

replace_ids_in_ways-length :
    (map_ways map_nodes : StdMap ℤ ℕ) (ways : List WayT) {ways' : List WayT}
    → replace_ids_in_ways map_ways map_nodes ways ≡ ok ways'
    → length ways' ≡ length ways
unfolding replace_ids_in_ways
replace_ids_in_ways-length map_ways map_nodes [] h = ground arith
replace_ids_in_ways-length map_ways map_nodes (cw ∷ ways) h =
    let (i, e1, h1) = >>=-eq-ok (replace_old_way_id map_ways cw) _ h in
    let (wns, e2, h2) = >>=-eq-ok (replace_old_ids_in_way_member map_nodes cw.members) _ h1 in
    let (ways', e3, h3) = >>=-eq-ok (replace_ids_in_ways map_ways map_nodes ways) _ h2 in
    rw (← ok-injective h3) (ap suc (replace_ids_in_ways-length map_ways map_nodes ways e3))

replace_old_ids_in_ways-length :
    (s : WayUpdater) {ways' : List WayT}
    → replace_old_ids_in_ways s.modify_ways s.ct.created_node_ids s.ct.created_way_ids ≡ ok ways'
    → length ways' ≡ length s.modify_ways
unfolding replace_old_ids_in_ways
replace_old_ids_in_ways-length s h =
    let (m, built, h1) =
      >>=-eq-ok (placeholder_map duplicate_way_placeholder s.ct.created_way_ids []) _ h in
    let (m', built', h2) =
      >>=-eq-ok (placeholder_map duplicate_placeholder s.ct.created_node_ids []) _ h1 in
    replace_ids_in_ways-length m m' s.modify_ways h2

-- When the modifications of ways go through, they are the ways of the buffer with the placeholder
-- ids replaced, and for a way that is in the table with the version v: its modifications name the
-- versions v, v + 1, … in the order of the message, and the table then has the version v plus
-- their number. The condition is that the counters of the packages do not wrap around.
pub process_modify_ways-serial :
    (s s' : WayUpdater) (ways : List WayT) (i v : ℕ)
    → process_modify_ways s ≡ ok s'
    → replace_old_ids_in_ways s.modify_ways s.ct.created_node_ids s.ct.created_way_ids ≡ ok ways
    → length s.modify_ways < u32_mod
    → version_of i s.db.current_ways ≡ some v
    → Consecutive v (changes_of i ways)
      × (version_of i s'.db.current_ways ≡ some (v + length (changes_of i ways)))
unfolding process_modify_ways
process_modify_ways-serial s s' ways i v h replaced small e =
    let (ways0, replaced0, h1) =
      >>=-eq-ok (replace_old_ids_in_ways s.modify_ways s.ct.created_node_ids s.ct.created_way_ids) _
        h in
    let same : ways0 ≡ ways = ok-injective (sym replaced0 ∙ replaced) in
    let ids = unique_ids (ids_of ways0) in
    let (u, locked, h2) = >>=-eq-ok (lock_current_ways ids s) _ h1 in
    let (ps, built, h3) = >>=-eq-ok (item_packages ways0) _ h2 in
    let (s1, processed, h4) = >>=-eq-ok (process_packages (process_way_package ids) ps s) _ h3 in
    let fits : length ways0 < u32_mod = rw (replace_old_ids_in_ways-length s replaced0) small in
    rw (← same) (
      rw (← ok-injective h4) (
        process_packages-serial (process_way_package ids) (λ (t : WayUpdater). t.db.current_ways)
          (process_way_package-step ids) ways0 ps i v s s1 fits built processed e))
