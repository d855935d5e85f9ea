-- ===== src/Changeset/Limits.antt =====
-- A changeset takes no more elements than it may have, and stays open no longer than it may.
use openstreetmap_cgimap.Bbox.{expand, BboxT}
use openstreetmap_cgimap.Prelude.{
  sym, length, eqb, ◌∙◌, ap, eqb, ltb, ◌<◌, leb, ◌%◌, ◌^◌, ◌&&◌, ◌+◌, Bool-cases, ℕ, ◌≤◌, ◌≡◌, refl,
  ◌⊎◌, inl, inr, Bool, List, [], ◌∷◌, map, arith, ℕ-Eq, String-Eq,
}
use openstreetmap_cgimap.Prelude.Int.{ℤ-Eq}
use openstreetmap_cgimap.Types.{guard, >>=-eq-ok, ok, ObjectType-Eq, Pair-Eq}
use openstreetmap_cgimap.Changeset.{
  set_changeset_row, get_total, count_stats, ChangesetUploadStats, changeset_update_enhanced_stats,
  update_changeset, ChangesetUpdater, ChangesetRow, ChangesetSettings, changeset_rows,
  update_changesets, lock_current_changeset, check_user_owns_changeset, lock_cs,
}

-- No row, one row, or more.
rows-cases :
    (rows : List ChangesetRow)
    → ((r : ChangesetRow) × (rows ≡ r ∷ []))
      ⊎ ((rows ≡ []) ⊎ ((r q : ChangesetRow) × (more : List ChangesetRow) × (rows ≡ r ∷ q ∷ more)))
rows-cases [] = inr (inl refl)
rows-cases (r ∷ []) = inl (r, refl)
rows-cases (r ∷ q ∷ more) = inr (inr (r, q, more, refl))

changeset_rows-update :
    (set : ChangesetRow → ChangesetRow) (i : ℕ) (rows : List ChangesetRow)
    → ((r : ChangesetRow) → (set r).id ≡ r.id)
    → changeset_rows i (update_changesets set i rows) ≡ map set (changeset_rows i rows)
changeset_rows-update set i [] same = refl
changeset_rows-update set i (r ∷ rows) same =
    ground (arith, changeset_rows-update set i rows same, same r)

-- A changeset that is locked is the only one with its id, belongs to the user, and is open.
pub locked_row :
    (settings : ChangesetSettings) (b : Bool) (s0 s : ChangesetUpdater)
    → lock_current_changeset settings b s0 ≡ ok s
    → (r : ChangesetRow) × (changeset_rows s0.changeset s0.changesets ≡ r ∷ [])
      × (s.cs_num_changes ≡ r.num_changes)
      × (s0.now ≤ r.closed_at)
      × (r.user_id ≡ s0.user_id)
      × (s.now ≡ s0.now)
      × (s.changesets ≡ s0.changesets)
      × (s.changeset ≡ s0.changeset)
unfolding lock_current_changeset check_user_owns_changeset lock_cs
locked_row settings b s0 s h = elim (rows-cases (changeset_rows s0.changeset s0.changesets)) [
  | inl (r, one) ↦ (
    r,
    one,
    ground (arith, one),
    ground (arith, one),
    ground (arith, one),
    ground (arith, one),
    ground (arith, one),
    ground (arith, one),
  )
  | inr (inl none_found) ↦ ground (arith, none_found)
  | inr (inr (r, q, more, two)) ↦ ground (arith, two)
]

-- The rows after the counters of the enhanced statistics: one row, with the same limits.
enhanced_rows :
    (settings : ChangesetSettings) (new : ChangesetUploadStats) (s s' : ChangesetUpdater)
    (r : ChangesetRow)
    → changeset_rows s.changeset s.changesets ≡ r ∷ []
    → changeset_update_enhanced_stats settings new s ≡ ok s'
    → (r' : ChangesetRow) × (changeset_rows s.changeset s'.changesets ≡ r' ∷ [])
      × (r'.num_changes ≡ r.num_changes)
      × (r'.closed_at ≡ r.closed_at)
unfolding changeset_update_enhanced_stats
enhanced_rows settings new s s' r one h =
    let counted = changeset_rows-update (count_stats new) s.changeset s.changesets (λ q. refl) in
    elim (Bool-cases (settings.enhanced_stats && ltb 0 (get_total new))) [
      | inl counts ↦ (count_stats new r, ground (arith, counts, counted, one), refl, refl)
      | inr unchanged ↦ (r, ground (arith, unchanged, one), refl, refl)
    ]

-- After a changeset is locked and updated it is still the only one with its id; its number of
-- changes is the old one and the number of new changes, and is not above the maximum; and it is
-- closed at the latest the longest open time after it was created. The condition is that the
-- counter of changes does not wrap around.
pub update_changeset-limits :
    (settings : ChangesetSettings) (b : Bool) (new : ChangesetUploadStats) (bbox : BboxT)
    (s0 s s' : ChangesetUpdater)
    → lock_current_changeset settings b s0 ≡ ok s
    → update_changeset settings new bbox s ≡ ok s'
    → s.cs_num_changes + get_total new < 2 ^ 32
    → (r r' : ChangesetRow) × (changeset_rows s0.changeset s0.changesets ≡ r ∷ [])
      × (changeset_rows s0.changeset s'.changesets ≡ r' ∷ [])
      × (r'.num_changes ≡ r.num_changes + get_total new)
      × (r'.num_changes ≤ settings.max_elements)
      × (r'.closed_at ≤ r.created_at + settings.timeout_open_max)
unfolding update_changeset
update_changeset-limits settings b new bbox s0 s s' locked updated fits =
    let (r, one, number, still_open, owner, same_now, table, same) =
      locked_row settings b s0 s locked in
    let num_new = get_total new % 2 ^ 32 in
    let num_changes = (s.cs_num_changes + num_new) % 2 ^ 32 in
    let box = expand s.cs_bbox bbox in
    let set = set_changeset_row settings s.now num_changes box in
    let s1 : ChangesetUpdater = record s {
      cs_num_changes = num_changes;
      cs_bbox = box;
      changesets = update_changesets set s.changeset s.changesets;
    } in
    let (t, allowed, h1) = >>=-eq-ok (guard (leb num_changes settings.max_elements) _) _ updated in
    let (t', found, h2) =
      >>=-eq-ok (guard (eqb (length (changeset_rows s.changeset s.changesets)) 1) _) _ h1 in
    let counter : num_changes ≡ s.cs_num_changes + get_total new = omega arith in
    let before : changeset_rows s.changeset s.changesets ≡ r ∷ [] = rw table (rw same one) in
    let after : changeset_rows s.changeset (update_changesets set s.changeset s.changesets)
        ≡ set r ∷ [] =
      changeset_rows-update set s.changeset s.changesets (λ q. refl) ∙ ap (map set) before in
    let (r', last, same_number, same_time) = enhanced_rows settings new s1 s' (set r) after h2 in
    (
      r,
      r',
      one,
      ap (λ i. changeset_rows i s'.changesets) (sym same) ∙ last,
      ground (arith, same_number, counter, number),
      ground (arith, same_number, allowed),
      ground (arith, same_time, still_open, same_now),
    )
