-- ===== src/Changeset.antt =====
-- src/backend/apidb/changeset_upload/changeset_updater.cpp: the changeset that an upload belongs to.
-- Times are seconds, and the settings for time-outs are given in seconds.
pub mod Limits
mod Tests
use openstreetmap_cgimap.Prelude.{
  ℕ, zero, suc, ◌+◌, ◌-◌, ◌*◌, ◌/◌, ◌%◌, ◌^◌, ◌≤◌, ◌<◌, String, ◌≡◌, refl, sym, ap, ap₂, ◌∙◌, ◌≢◌,
  ◌↔◌, ◌⊎◌, inl, inr, Bool, true, false, not, ◌&&◌, ◌||◌, Option, none, some, List, [], ◌∷◌, ◌++◌,
  map, arith, ltb, leb, eqb, if◌then◌else◌, eqb_iff, Eq, ◌==◌, ==_refl, ℕ-Eq, String-Eq, Bool-cases,
  Option-cases, length, get_elem?, length-append, All, Any, List-cases, get_or, to_list,
  get_elem?-append, get_elem?-none, get_or-append, get_or_default,
}
use openstreetmap_cgimap.Prelude.Int.{
  ℤ, pos, negsuc, pos_part, neg_part, ◌+ℤ◌, ◌-ℤ◌, ◌*ℤ◌, ◌≤ℤ◌, ltb_ℤ, eqb_ℤ, eqb_ℤ_iff, ℤ-Eq,
  int_laws, IsInt64, to_uint64, to_int64, to_int64-to_uint64,
}
use openstreetmap_cgimap.StdMap.{
  StdMap, find, contains, insert, assign, insert_all, find-insert, find-assign, find-insert_all,
  find_first, find_first_key, is_some, find_first_iff,
}
use openstreetmap_cgimap.Types.{
  Error, bad_request, payload_error, not_found, conflict, gone, precondition_failed, server_error,
  runtime_error, assertion_failed, Result, ok, err, ◌>>=◌, ◌>>◌, guard, >>=-eq-ok, ok-injective,
  Result-cases, >>=-assoc, >>=-ok, >>=-cong, is_ok, Operation, op_undefined, op_create, op_modify,
  op_delete, ObjectType, node, way, relation, ObjectKey, EditionKey, ObjectType-Eq, Pair-Eq,
}
use openstreetmap_cgimap.Bbox.{BboxT, undefined_bbox, expand, bbox_beq}

-- struct changeset_upload_stats::element_stats
pub record ElementStats : Type 0 where
  pub num_create : ℕ
  pub num_modify : ℕ
  pub num_delete : ℕ

-- struct changeset_upload_stats
pub record ChangesetUploadStats : Type 0 where
  pub nodes : ElementStats
  pub ways : ElementStats
  pub relations : ElementStats

abbrev pub element_total : ElementStats → ℕ
element_total e = e.num_create + e.num_modify + e.num_delete

abbrev pub get_total : ChangesetUploadStats → ℕ
get_total s = element_total s.nodes + element_total s.ways + element_total s.relations

abbrev pub no_stats : ChangesetUploadStats
no_stats =
    let zeros : ElementStats = record { num_create = 0; num_modify = 0; num_delete = 0 } in
    record { nodes = zeros; ways = zeros; relations = zeros }

-- A row of `changesets`; its box is `none` where min_lat is NULL.
pub record ChangesetRow : Type 0 where
  pub id : ℕ
  pub user_id : ℕ
  pub created_at : ℕ
  pub closed_at : ℕ
  pub bbox : Option BboxT
  pub num_changes : ℕ
  pub stats : ChangesetUploadStats

-- A row of `changeset_tags`.
pub record ChangesetTag : Type 0 where
  pub changeset_id : ℕ
  pub k : String
  pub v : String

-- A row of `users`; its count is `none` where it is NULL.
pub record UserRow : Type 0 where
  pub id : ℕ
  pub changesets_count : Option ℕ

-- global_settings
pub record ChangesetSettings : Type 0 where
  pub max_elements : ℕ
  pub timeout_idle : ℕ
  pub timeout_open_max : ℕ
  pub enhanced_stats : Bool

-- class ApiDB_Changeset_Updater, with the tables it works on, and the time of the transaction.
pub record ChangesetUpdater : Type 0 where
  pub changesets : List ChangesetRow
  pub changeset_tags : List ChangesetTag
  pub changesets_subscribers : List (ℕ × ℕ)
  pub users : List UserRow
  pub changesets_id_seq : ℕ
  pub now : ℕ
  pub user_id : ℕ
  pub changeset : ℕ
  pub cs_num_changes : ℕ
  pub cs_bbox : BboxT

-- `WHERE id = $1`
abbrev pub changeset_rows : ℕ → List ChangesetRow → List ChangesetRow
changeset_rows i [] = []
changeset_rows i (r ∷ rs) = if eqb r.id i then r ∷ changeset_rows i rs else changeset_rows i rs

-- `UPDATE changesets SET … WHERE id = $1`
abbrev pub update_changesets :
    (ChangesetRow → ChangesetRow) → ℕ → List ChangesetRow → List ChangesetRow
update_changesets set i [] = []
update_changesets set i (r ∷ rs) = (if eqb r.id i then set r else r) ∷ update_changesets set i rs

abbrev pub not_owner : Error
not_owner = conflict "The user doesn't own that changeset"

abbrev pub changeset_closed : Error
changeset_closed = conflict "The changeset {:d} was closed at {}"

unfoldable pub check_user_owns_changeset : ChangesetUpdater → Result (Unit {0})
check_user_owns_changeset s = elim (changeset_rows s.changeset s.changesets) [
  | r ∷ [] ↦ guard (eqb r.user_id s.user_id) not_owner
  | _ ↦ err (not_found "")
]

-- Whether the changeset is closed comes back. That another process has locked it is not modelled.
unfoldable pub lock_cs : ChangesetUpdater → Result (ChangesetUpdater × Bool)
lock_cs s = elim (changeset_rows s.changeset s.changesets) [
  | r ∷ [] ↦
      if eqb r.user_id s.user_id
      then ok (
        record s {
          cs_num_changes = r.num_changes;
          cs_bbox = elim r.bbox [ none ↦ s.cs_bbox | some b ↦ b ];
        },
        ltb r.closed_at s.now,
      )
      else err not_owner
  | _ ↦ err not_owner
]

unfoldable pub lock_current_changeset :
    ChangesetSettings → Bool → ChangesetUpdater → Result ChangesetUpdater
unfolding check_user_owns_changeset lock_cs
lock_current_changeset settings check_max_elements_limit s = do
  check_user_owns_changeset s
  (s', is_closed) ← lock_cs s
  guard (not is_closed) changeset_closed
  guard (not (check_max_elements_limit && leb settings.max_elements s'.cs_num_changes))
      changeset_closed
  ok s'

abbrev pub add_stats : ElementStats → ElementStats → ElementStats
add_stats a b = record {
  num_create = a.num_create + b.num_create;
  num_modify = a.num_modify + b.num_modify;
  num_delete = a.num_delete + b.num_delete;
}

abbrev pub count_stats : ChangesetUploadStats → ChangesetRow → ChangesetRow
count_stats new r = record r {
  stats = record {
    nodes = add_stats r.stats.nodes new.nodes;
    ways = add_stats r.stats.ways new.ways;
    relations = add_stats r.stats.relations new.relations;
  };
}

unfoldable pub changeset_update_enhanced_stats :
    ChangesetSettings → ChangesetUploadStats → ChangesetUpdater → Result ChangesetUpdater
changeset_update_enhanced_stats settings new s =
    if settings.enhanced_stats && ltb 0 (get_total new)
    then (do
      guard (eqb (length (changeset_rows s.changeset s.changesets)) 1)
          (server_error "Cannot update changeset - changeset_update_enhanced_stats")
      ok (record s { changesets = update_changesets (count_stats new) s.changeset s.changesets }))
    else ok s

-- The new `closed_at`. The comparison of two intervals has the subtrahends on the other sides.
abbrev pub new_closed_at : ChangesetSettings → ℕ → ChangesetRow → ℕ
new_closed_at settings now r =
    if ltb (settings.timeout_open_max + r.created_at) (r.closed_at + settings.timeout_idle)
    then r.created_at + settings.timeout_open_max
    else now + settings.timeout_idle

-- The assignments of the statement, with the box where it is valid.
abbrev pub set_changeset_row : ChangesetSettings → ℕ → ℕ → BboxT → ChangesetRow → ChangesetRow
set_changeset_row settings now num_changes box r = record r {
  num_changes = num_changes;
  bbox = if bbox_beq box undefined_bbox then r.bbox else some box;
  closed_at = new_closed_at settings now r;
}

-- The counters are of type uint32_t.
unfoldable pub update_changeset :
    ChangesetSettings → ChangesetUploadStats → BboxT → ChangesetUpdater → Result ChangesetUpdater
unfolding changeset_update_enhanced_stats expand
update_changeset settings new_changes bbox s =
    let num_new_changes = get_total new_changes % 2 ^ 32 in
    let num_changes = (s.cs_num_changes + num_new_changes) % 2 ^ 32 in
    let box = expand s.cs_bbox bbox in
    let s' = record s {
      cs_num_changes = num_changes;
      cs_bbox = box;
      changesets =
          update_changesets (set_changeset_row settings s.now num_changes box) s.changeset
            s.changesets;
    } in
    do
      guard (leb num_changes settings.max_elements) changeset_closed
      guard (eqb (length (changeset_rows s.changeset s.changesets)) 1)
          (server_error "Cannot update changeset")
      changeset_update_enhanced_stats settings new_changes s'

-- `DELETE FROM changeset_tags`
abbrev pub without_changeset_tags : ℕ → List ChangesetTag → List ChangesetTag
without_changeset_tags i [] = []
without_changeset_tags i (t ∷ ts) =
    if eqb t.changeset_id i then without_changeset_tags i ts else t ∷ without_changeset_tags i ts

unfoldable pub changeset_delete_tags : ChangesetUpdater → ChangesetUpdater
changeset_delete_tags s = record s {
  changeset_tags = without_changeset_tags s.changeset s.changeset_tags;
}

-- The rows of the tags.
abbrev pub new_changeset_tags : ℕ → List (String × String) → List ChangesetTag
new_changeset_tags i [] = []
new_changeset_tags i ((key, value) ∷ tags) =
    record { changeset_id = i; k = key; v = value } ∷ new_changeset_tags i tags

unfoldable pub changeset_insert_tags : List (String × String) → ChangesetUpdater → ChangesetUpdater
changeset_insert_tags tags s = record s {
  changeset_tags = s.changeset_tags ++ new_changeset_tags s.changeset tags;
}

unfoldable pub changeset_insert_cs : ChangesetSettings → ChangesetUpdater → ChangesetUpdater
changeset_insert_cs settings s =
    let row : ChangesetRow = record {
      id = s.changesets_id_seq;
      user_id = s.user_id;
      created_at = s.now;
      closed_at = s.now + settings.timeout_idle;
      bbox = none;
      num_changes = 0;
      stats = no_stats;
    } in
    record s {
      changesets = s.changesets ++ row ∷ [];
      changesets_id_seq = s.changesets_id_seq + 1;
      changeset = s.changesets_id_seq;
    }

-- `UPDATE users SET changesets_count = COALESCE(changesets_count, 0) + 1`: the rows, and how many
-- of them are changed.
abbrev pub count_changeset : ℕ → List UserRow → List UserRow × ℕ
count_changeset i [] = ([], 0)
count_changeset i (u ∷ us) =
    let (rest, affected) = count_changeset i us in
    if eqb u.id i
    then (
      record u { changesets_count = some (elim u.changesets_count [ none ↦ 1 | some n ↦ n + 1 ]) }
          ∷ rest,
      affected + 1,
    )
    else (u ∷ rest, affected)

unfoldable pub changeset_update_users_cs_count : ChangesetUpdater → Result ChangesetUpdater
changeset_update_users_cs_count s =
    let (users', affected) = count_changeset s.user_id s.users in
    do
      guard (eqb affected 1) (server_error "Cannot create changeset - update changesets_count")
      ok (record s { users = users' })

unfoldable pub changeset_insert_subscriber : ChangesetUpdater → ChangesetUpdater
changeset_insert_subscriber s = record s {
  changesets_subscribers = s.changesets_subscribers ++ (s.user_id, s.changeset) ∷ [];
}

-- The id of the new changeset comes back.
unfoldable pub api_create_changeset :
    ChangesetSettings → List (String × String) → ChangesetUpdater → Result (ChangesetUpdater × ℕ)
unfolding changeset_insert_cs changeset_update_users_cs_count changeset_delete_tags
    changeset_insert_tags changeset_insert_subscriber
api_create_changeset settings tags s = do
  s1 ← changeset_update_users_cs_count (changeset_insert_cs settings s)
  let s2 = changeset_insert_tags tags (changeset_delete_tags s1)
  let s3 = changeset_insert_subscriber s2
  ok (s3, s3.changeset)

unfoldable pub api_update_changeset :
    ChangesetSettings → List (String × String) → ChangesetUpdater → Result ChangesetUpdater
unfolding lock_current_changeset changeset_delete_tags changeset_insert_tags update_changeset
api_update_changeset settings tags s = do
  s1 ← lock_current_changeset settings false s
  update_changeset settings no_stats undefined_bbox
      (changeset_insert_tags tags (changeset_delete_tags s1))

-- `SET closed_at = now()`
abbrev pub close_changesets : ℕ → ℕ → ℕ → List ChangesetRow → List ChangesetRow × ℕ
close_changesets now user i [] = ([], 0)
close_changesets now user i (r ∷ rs) =
    let (rest, affected) = close_changesets now user i rs in
    if eqb r.id i && eqb r.user_id user
    then (record r { closed_at = now } ∷ rest, affected + 1)
    else (r ∷ rest, affected)

unfoldable pub api_close_changeset : ChangesetSettings → ChangesetUpdater → Result ChangesetUpdater
unfolding lock_current_changeset
api_close_changeset settings s = do
  s1 ← lock_current_changeset settings false s
  let (rows, affected) = close_changesets s1.now s1.user_id s1.changeset s1.changesets
  guard (eqb affected 1) (server_error "Cannot close changeset")
  ok (record s1 { changesets = rows })
