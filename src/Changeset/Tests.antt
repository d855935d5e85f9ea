-- ===== src/Changeset/Tests.antt =====
-- Runs of the changeset updater at concrete inputs.
use openstreetmap_cgimap.Prelude.{
  ◌+◌, ◌^◌, ◌≤◌, ◌<◌, ◌≡◌, refl, true, [], ◌∷◌, arith, ℕ-Eq, String-Eq,
}
use openstreetmap_cgimap.Prelude.Int.{ℤ-Eq}
use openstreetmap_cgimap.Types.{Result, ok, err, ObjectType-Eq, Pair-Eq}
use openstreetmap_cgimap.Bbox.{undefined_bbox}
use openstreetmap_cgimap.Samples.{sample_changeset, sample_changesets, sample_settings}
use openstreetmap_cgimap.Changeset.{
  ChangesetUpdater, ChangesetRow, ChangesetUploadStats, ElementStats, changeset_rows, get_total,
  lock_current_changeset, update_changeset, api_close_changeset, changeset_closed,
}
use openstreetmap_cgimap.Changeset.Limits.{update_changeset-limits}

abbrev three_nodes : ChangesetUploadStats
three_nodes =
    let zeros : ElementStats = record { num_create = 0; num_modify = 0; num_delete = 0 } in
    record {
      nodes = record { num_create = 2; num_modify = 1; num_delete = 0 };
      ways = zeros;
      relations = zeros;
    }

abbrev or_sample : Result ChangesetUpdater → ChangesetUpdater
or_sample (ok s) = s
or_sample (err e) = sample_changesets

abbrev locked : ChangesetUpdater
unfolding lock_current_changeset
locked = or_sample (lock_current_changeset sample_settings true sample_changesets)

abbrev updated : ChangesetUpdater
unfolding update_changeset
updated = or_sample (update_changeset sample_settings three_nodes undefined_bbox locked)

is_locked : lock_current_changeset sample_settings true sample_changesets ≡ ok locked
unfolding lock_current_changeset
is_locked = refl

is_updated : update_changeset sample_settings three_nodes undefined_bbox locked ≡ ok updated
unfolding lock_current_changeset update_changeset
is_updated = refl

few : locked.cs_num_changes + get_total three_nodes < 2 ^ 32
unfolding lock_current_changeset locked
few = omega arith

update_changeset-limits_example :
    (r r' : ChangesetRow) × (changeset_rows 1 (sample_changeset ∷ []) ≡ r ∷ [])
    × (changeset_rows 1 updated.changesets ≡ r' ∷ [])
    × (r'.num_changes ≡ r.num_changes + 3)
    × (r'.num_changes ≤ 10)
    × (r'.closed_at ≤ r.created_at + 86400)
update_changeset-limits_example =
    update_changeset-limits sample_settings true three_nodes undefined_bbox sample_changesets locked
      updated is_locked is_updated few

-- A changeset that was closed can be changed no more.
abbrev closed : ChangesetUpdater
unfolding api_close_changeset
closed = or_sample (api_close_changeset sample_settings sample_changesets)

closed_again :
    lock_current_changeset sample_settings true (record closed { now = 2001 })
    ≡ err changeset_closed
unfolding api_close_changeset lock_current_changeset closed
closed_again = refl

-- A changeset that has all the elements it may have takes no more.
too_many :
    update_changeset (record sample_settings { max_elements = 6 }) three_nodes undefined_bbox locked
    ≡ err changeset_closed
unfolding lock_current_changeset update_changeset locked
too_many = refl
