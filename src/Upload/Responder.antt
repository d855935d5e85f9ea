-- ===== src/Upload/Responder.antt =====
-- The constructor of changeset_upload_responder, in src/api06/changeset_upload_handler.cpp.
use openstreetmap_cgimap.Prelude.{
  ℕ, String, true, Option, none, some, List, leb, if◌then◌else◌, ℕ-Eq, String-Eq,
}
use openstreetmap_cgimap.Prelude.Int.{pos, ℤ-Eq, to_uint64}
use openstreetmap_cgimap.Types.{
  too_many_requests, payload_too_large, Result, ok, ◌>>=◌, ◌>>◌, guard, ObjectType-Eq, Pair-Eq,
}
use openstreetmap_cgimap.Bbox.{BboxT, undefined_bbox, bbox_beq, linear_size}
use openstreetmap_cgimap.Changeset.{
  ChangesetUpdater, ChangesetSettings, ChangesetUploadStats, ElementStats, get_total,
  lock_current_changeset, update_changeset,
}
use openstreetmap_cgimap.Double.{DoubleOps}
use openstreetmap_cgimap.OsmObject.{Limits}
use openstreetmap_cgimap.Tracking.{DiffResult}
use openstreetmap_cgimap.XmlParser.{Event}
use openstreetmap_cgimap.Handler.{Handler, get_bbox, st_finished}
use openstreetmap_cgimap.Upload.{Upload, upload_updaters, upload_message}

abbrev pub element_stats : ℕ × ℕ × ℕ → ElementStats
element_stats (created, modified, deleted) = record {
  num_create = created;
  num_modify = modified;
  num_delete = deleted;
}

-- `OSMChange_Handler::get_stats`
unfoldable pub upload_stats : Upload → ChangesetUploadStats
unfolding openstreetmap_cgimap.NodeUpdater.Process.get_stats
    openstreetmap_cgimap.WayUpdater.get_stats openstreetmap_cgimap.RelationUpdater.get_stats
upload_stats u =
    let ct = u.change_tracking in
    record {
      nodes = element_stats (
          openstreetmap_cgimap.NodeUpdater.Process.get_stats (record (u.node_updater) { ct = ct }));
      ways =
          element_stats
            (openstreetmap_cgimap.WayUpdater.get_stats (record (u.way_updater) { ct = ct }));
      relations = element_stats (
          openstreetmap_cgimap.RelationUpdater.get_stats (record (u.relation_updater) { ct = ct }));
    }

-- The limits that apply to the user: `none` where the setting turns a limit off. The database
-- computes them.
pub record UserLimits : Type 0 where
  pub max_changes : Option ℕ
  pub max_bbox_size : Option ℕ

abbrev pub check_rate_limit : Option ℕ → ℕ → Result (Unit {0})
check_rate_limit none new_changes = ok tt
check_rate_limit (some max_changes) new_changes =
    guard (leb new_changes max_changes)
      (too_many_requests "Upload has been blocked due to rate limiting. Please try again later.")

-- The size is compared as an unsigned number.
unfoldable pub check_bbox_size : Option ℕ → BboxT → Result (Unit {0})
unfolding linear_size to_uint64
check_bbox_size none cs_bbox = ok tt
check_bbox_size (some max_bbox_size) cs_bbox =
    if bbox_beq cs_bbox undefined_bbox
    then ok tt
    else guard (leb (to_uint64 (linear_size cs_bbox)) max_bbox_size)
        (payload_too_large "Changeset bounding box size limit exceeded.")

module _ {D : Type 0} (ops : DoubleOps D) (limits : Limits) (settings : ChangesetSettings) where
  -- The changeset updater and the upload, after the transaction is committed, and the answer. The
  -- updater and the handler are given the same id of a changeset, which is not negative here.
  unfoldable pub changeset_upload :
      UserLimits
      → (String → List Event × Option String)
      → ℕ
      → String
      → ChangesetUpdater
      → Upload
      → Result (ChangesetUpdater × (Upload × List DiffResult))
  unfolding lock_current_changeset upload_message upload_stats get_bbox upload_updaters
      update_changeset check_bbox_size
  changeset_upload user_limits parse_memory changeset payload c u = do
    let changeset_updater = record c { changeset = changeset }
    c1 ← lock_current_changeset settings true changeset_updater
    (u', diffresult) ← upload_message ops limits parse_memory (pos changeset) payload u
    let stats = upload_stats u'
    check_rate_limit user_limits.max_changes (get_total stats)
    let handler : Handler Upload = record { current_state = st_finished; updaters = u' }
    c2 ← update_changeset settings stats (get_bbox (upload_updaters ops limits) handler) c1
    check_bbox_size user_limits.max_bbox_size c2.cs_bbox
    ok (c2, (u', diffresult))
