-- ===== src/Upload/Allowed.antt =====
-- What an upload that goes through has observed.
use openstreetmap_cgimap.Prelude.{
  length, ℕ, ◌+◌, ◌^◌, ◌≤◌, ◌<◌, String, ◌≡◌, sym, ap, ◌∙◌, true, Option, none, some, List, [], ◌∷◌,
  arith, ℕ-Eq, String-Eq,
}
use openstreetmap_cgimap.Prelude.Int.{pos, ℤ-Eq}
use openstreetmap_cgimap.Types.{ok, >>=-eq-ok, ok-injective, ObjectType-Eq, Pair-Eq}
use openstreetmap_cgimap.Changeset.{
  ChangesetUpdater, ChangesetSettings, ChangesetRow, changeset_rows, get_total,
  lock_current_changeset, update_changeset,
}
use openstreetmap_cgimap.Handler.{Handler, get_bbox, st_finished}
use openstreetmap_cgimap.Types.{>>=-eq-ok, ok-injective}
use openstreetmap_cgimap.Upload.{upload_updaters}
use openstreetmap_cgimap.Prelude.{ap, sym, ◌∙◌, true}
use openstreetmap_cgimap.Changeset.Limits.{locked_row, update_changeset-limits}
use openstreetmap_cgimap.Double.{DoubleOps}
use openstreetmap_cgimap.OsmObject.{IsWithin, Limits}
use openstreetmap_cgimap.Tracking.{DiffResult}
use openstreetmap_cgimap.XmlParser.{Event}
use openstreetmap_cgimap.Upload.{Upload, upload_message}
use openstreetmap_cgimap.Upload.Responder.{
  UserLimits, changeset_upload, upload_stats, check_rate_limit, check_bbox_size,
}

check_rate_limit-IsWithin :
    (most : Option ℕ) (n : ℕ) {t : Unit {0}} → check_rate_limit most n ≡ ok t → IsWithin most n
check_rate_limit-IsWithin none n h = tt
check_rate_limit-IsWithin (some most) n h = ground arith

row_injective : {q r : ChangesetRow} → q ∷ [] ≡ r ∷ [] → q ≡ r
row_injective e = cc

-- The changes of an upload: the objects of each type that it created, modified and deleted.
unfoldable pub changes : Upload → ℕ
changes u =
    let ct = u.change_tracking in
    length ct.created_node_ids
    + length ct.created_way_ids
    + length ct.created_relation_ids
    + (length ct.modified_node_ids + length ct.modified_way_ids + length ct.modified_relation_ids)
    + (length ct.deleted_node_ids + length ct.deleted_way_ids + length ct.deleted_relation_ids)

get_total-upload_stats : (u : Upload) → get_total (upload_stats u) ≡ changes u
unfolding upload_stats changes
get_total-upload_stats u = omega arith

-- An upload that goes through is one of a changeset that belongs to its user and is open. The
-- changeset then has the changes of the upload, each created, modified or deleted object of the
-- tracking object counted once, in addition to its own, and not more than the maximum, and is
-- closed at the latest the longest open time after it was created; and the upload has no more
-- changes than its user may make. The conditions are that the row of the changeset is given and
-- that the sum of its changes and the new ones is below 2^32.
pub changeset_upload-IsWithin :
    {D : Type 0} (ops : DoubleOps D) (limits : Limits) (settings : ChangesetSettings)
    (user_limits : UserLimits) (parse_memory : String → List Event × Option String) (changeset : ℕ)
    (payload : String) (c c' : ChangesetUpdater) (u u' : Upload) (diffresult : List DiffResult)
    (r : ChangesetRow)
    → changeset_upload ops limits settings user_limits parse_memory changeset payload c u
      ≡ ok (c', (u', diffresult))
    → changeset_rows changeset c.changesets ≡ r ∷ []
    → r.num_changes + changes u' < 2 ^ 32
    → (r.user_id ≡ c.user_id)
      × (c.now ≤ r.closed_at)
      × IsWithin user_limits.max_changes (changes u')
      × ((r' : ChangesetRow) × (changeset_rows changeset c'.changesets ≡ r' ∷ [])
          × (r'.num_changes ≡ r.num_changes + changes u')
          × (r'.num_changes ≤ settings.max_elements)
          × (r'.closed_at ≤ r.created_at + settings.timeout_open_max))
unfolding changeset_upload
changeset_upload-IsWithin ops limits settings user_limits parse_memory changeset payload c c' u u'
      diffresult r h row fits =
    let c0 : ChangesetUpdater = record c { changeset = changeset } in
    let (c1, locked, h1) = >>=-eq-ok (lock_current_changeset settings true c0) _ h in
    let ((u1, rows), read, h2) =
      >>=-eq-ok (upload_message ops limits parse_memory (pos changeset) payload u) _ h1 in
    let (t, allowed, h3) =
      >>=-eq-ok (check_rate_limit user_limits.max_changes (get_total (upload_stats u1))) _ h2 in
    let handler : Handler Upload = record { current_state = st_finished; updaters = u1 } in
    let box = get_bbox (upload_updaters ops limits) handler in
    let (c2, updated, h4) = >>=-eq-ok (update_changeset settings (upload_stats u1) box c1) _ h3 in
    let (t', small, h5) = >>=-eq-ok (check_bbox_size user_limits.max_bbox_size c2.cs_bbox) _ h4 in
    let same_u : u1 ≡ u' = ap (λ x. x.1.0) (ok-injective h5) in
    let same_c : c2 ≡ c' = ap (λ x. x.0) (ok-injective h5) in
    let total_same : get_total (upload_stats u1) ≡ changes u' =
      get_total-upload_stats u1 ∙ ap changes same_u in
    let (q, one, number, still_open, owner, same_now, table, same_id) =
      locked_row settings true c0 c1 locked in
    let same_row : q ≡ r = row_injective (sym one ∙ row) in
    let counter : c1.cs_num_changes ≡ r.num_changes =
      number ∙ ap (λ (x : ChangesetRow). x.num_changes) same_row in
    let (r0, r', one0, last, sum, most, closed) =
      update_changeset-limits settings true (upload_stats u1) box c0 c1 c2 locked updated
        (omega (arith, counter, total_same, fits)) in
    let same_row0 : r0 ≡ r = row_injective (sym one0 ∙ row) in
    let sum0 = ap (λ (x : ChangesetRow). x.num_changes) same_row0 in
    let created0 = ap (λ (x : ChangesetRow). x.created_at) same_row0 in
    let closed_at_same = ap (λ (x : ChangesetRow). x.closed_at) same_row in
    (
      sym (ap (λ (x : ChangesetRow). x.user_id) same_row) ∙ owner,
      omega (arith, still_open, closed_at_same),
      rw (← total_same) (check_rate_limit-IsWithin user_limits.max_changes _ allowed),
      (
        r',
        ap (λ (x : ChangesetUpdater). changeset_rows changeset x.changesets) (sym same_c) ∙ last,
        omega (arith, sum, sum0, total_same),
        most,
        omega (arith, closed, created0),
      ),
    )
