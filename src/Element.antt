-- ===== src/Element.antt =====
-- What src/backend/apidb/changeset_upload/way_updater.cpp and relation_updater.cpp have in common:
-- the same statements on tables with the same columns.
pub mod Tags
pub mod Deletion
pub mod Serial
pub mod Found
pub mod Unused
use openstreetmap_cgimap.Prelude.{
  ℕ, zero, suc, ◌+◌, ◌-◌, ◌*◌, ◌/◌, ◌%◌, ◌^◌, ◌≤◌, ◌<◌, String, ◌≡◌, refl, sym, ap, ap₂, ◌∙◌, ◌≢◌,
  ◌↔◌, ◌⊎◌, inl, inr, Bool, true, false, not, ◌&&◌, ◌||◌, Option, none, some, List, [], ◌∷◌, ◌++◌,
  map, arith, ltb, leb, eqb, if◌then◌else◌, eqb_iff, Eq, ◌==◌, ==_refl, ℕ-Eq, String-Eq, Bool-cases,
  Option-cases, length, get_elem?, length-append, All, Any, List-cases, get_or, to_list,
  get_elem?-append, get_elem?-none, get_or-append, get_or_default,
}
use openstreetmap_cgimap.Prelude.Int.{
  ℤ, pos, negsuc, pos_part, neg_part, ◌+ℤ◌, ◌-ℤ◌, ◌*ℤ◌, ◌≤ℤ◌, ltb_ℤ, eqb_ℤ, eqb_ℤ_iff, ℤ-Eq,
  int_laws, IsInt64, to_uint64, to_int64, to_int64-to_uint64,
}
use openstreetmap_cgimap.StdMap.{
  StdMap, find, contains, insert, assign, insert_all, find-insert, find-assign, find-insert_all,
  find_first, find_first_key, is_some, find_first_iff,
}
use openstreetmap_cgimap.Types.{
  Error, bad_request, payload_error, not_found, conflict, gone, precondition_failed, server_error,
  runtime_error, assertion_failed, Result, ok, err, ◌>>=◌, ◌>>◌, guard, >>=-eq-ok, ok-injective,
  Result-cases, >>=-assoc, >>=-ok, >>=-cong, is_ok, Operation, op_undefined, op_create, op_modify,
  op_delete, ObjectType, node, way, relation, ObjectKey, EditionKey, ObjectType-Eq, Pair-Eq,
}
use openstreetmap_cgimap.Database.{ElementRow, CurrentElementTag, ElementTag, Database}
use openstreetmap_cgimap.Tracking.{ObjectIdMapping}
use openstreetmap_cgimap.NodeUpdater.Tables.{mem_id, unique_ids, insert_id, old_id_at}
use openstreetmap_cgimap.Packages.{build_packages}

-- struct way_t and struct relation_t: `members` are the nodes of a way, or the members of a
-- relation.
pub record ItemT (M : Type 0) : Type 0 where
  pub id : ℕ
  pub version : ℕ
  pub changeset_id : ℤ
  pub old_id : ℤ
  pub tags : List (String × String)
  pub members : List M
  pub if_unused : Bool

-- `WHERE id = ANY($1)`
unfoldable pub rows_of_ids : List ℕ → List ElementRow → List ElementRow
rows_of_ids ids [] = []
rows_of_ids ids (r ∷ rs) = if mem_id r.id ids then r ∷ rows_of_ids ids rs else rows_of_ids ids rs

abbrev pub row_ids : List ElementRow → List ℕ
row_ids = map (λ (r : ElementRow). r.id)

-- `WHERE visible = true`
unfoldable pub visible_ids : List ElementRow → List ℕ
visible_ids [] = []
visible_ids (r ∷ rs) = if r.visible then r.id ∷ visible_ids rs else visible_ids rs

-- `SELECT t.id … EXCEPT SELECT id FROM locked`: the ids of the first list that are not in the second.
unfoldable pub missing_from : List ℕ → List ℕ → List ℕ
missing_from [] found = []
missing_from (i ∷ is) found =
    if mem_id i found then missing_from is found else i ∷ missing_from is found

-- What an exception is thrown for, when there is such a row.
abbrev pub none_missing : Error → List ℕ → Result (Unit {0})
none_missing e [] = ok tt
none_missing e (i ∷ is) = err e

module _ {M : Type 0} where
  abbrev pub ids_of : List (ItemT M) → List ℕ
  ids_of = map (λ (n : ItemT M). n.id)

  -- `id_to_old_id[id]`, where the last item with the id counts.
  unfoldable pub id_to_old_id : List (ItemT M) → StdMap ℕ ℤ → StdMap ℕ ℤ
  id_to_old_id [] m = m
  id_to_old_id (n ∷ ns) m = id_to_old_id ns (assign n.id n.old_id m)

  -- The table expression `ids_mapping`: one new id for each old id.
  unfoldable pub ids_mapping : ℕ → List (ItemT M) → List ObjectIdMapping
  ids_mapping next [] = []
  ids_mapping next (n ∷ ns) =
      record { old_id = n.old_id; new_id = next; new_version = 1 } ∷ ids_mapping (next + 1) ns

  -- `INNER JOIN ids_mapping ON old_id`, for one mapping.
  unfoldable pub joined_rows : ObjectIdMapping → List (ItemT M) → List ElementRow
  joined_rows i [] = []
  joined_rows i (n ∷ ns) =
      if n.old_id == i.old_id
      then record { id = i.new_id; changeset_id = n.changeset_id; visible = true; version = 1 }
        ∷ joined_rows i ns
      else joined_rows i ns

  unfoldable pub insert_op : List ObjectIdMapping → List (ItemT M) → List ElementRow
  unfolding joined_rows
  insert_op [] items = []
  insert_op (i ∷ is) items = joined_rows i items ++ insert_op is items

  -- `t.id = c.id AND t.version <> c.version`, for one item and all rows.
  unfoldable pub has_other_version : ItemT M → List ElementRow → Bool
  has_other_version n [] = false
  has_other_version n (r ∷ rs) =
      eqb n.id r.id && not (eqb n.version r.version) || has_other_version n rs

  unfoldable pub check_versions : Error → List (ItemT M) → List ElementRow → Result (Unit {0})
  unfolding has_other_version
  check_versions mismatch [] rows = ok tt
  check_versions mismatch (n ∷ ns) rows =
      let rest = check_versions mismatch ns rows in
      if has_other_version n rows then err mismatch else rest

  -- The item that a row of the table is updated from.
  unfoldable pub matching_item : ElementRow → List (ItemT M) → Option (ItemT M)
  matching_item r [] = none
  matching_item r (n ∷ ns) =
      if eqb n.id r.id && eqb n.version r.version then some n else matching_item r ns

  -- `SET changeset_id = …, visible = …, version = u.version + 1`
  abbrev pub set_row : Bool → ItemT M → ElementRow → ElementRow
  set_row visible n r = record {
    id = r.id;
    changeset_id = n.changeset_id;
    visible = visible;
    version = n.version + 1;
  }

  -- `UPDATE … FROM u WHERE id = u.id AND version = u.version`
  unfoldable pub update_rows : Bool → List (ItemT M) → List ElementRow → List ElementRow
  unfolding matching_item
  update_rows visible items [] = []
  update_rows visible items (r ∷ rs) =
      (elim (matching_item r items) [ none ↦ r | some n ↦ set_row visible n r ])
      ∷ update_rows visible items rs

  -- `RETURNING id, version`
  unfoldable pub returned_rows : Bool → List (ItemT M) → List ElementRow → List ElementRow
  unfolding matching_item
  returned_rows visible items [] = []
  returned_rows visible items (r ∷ rs) =
      let rest = returned_rows visible items rs in
      elim (matching_item r items) [ none ↦ rest | some n ↦ set_row visible n r ∷ rest ]

  -- `build_packages`; a position out of range is an exception of the library.
  unfoldable pub item_packages : List (ItemT M) → Result (List (List (ItemT M)))
  unfolding build_packages
  item_packages items = elim (build_packages (λ (n : ItemT M). n.id) items) [
    | none ↦ err (runtime_error "vector::_M_range_check")
    | some ps ↦ ok ps
  ]

  -- The set of the placeholder ids seen so far comes back.
  unfoldable pub check_unique_ids :
      List (ItemT M) → StdMap ℤ (Unit {0}) → Result (StdMap ℤ (Unit {0}))
  unfolding insert
  check_unique_ids [] ids = ok ids
  check_unique_ids (n ∷ ns) ids =
      let (ids', inserted) = insert n.old_id tt ids in
      let rest = check_unique_ids ns ids' in
      if inserted
      then rest
      else err (bad_request "Placeholder IDs must be unique for created elements.")

abbrev pub returned_mapping : StdMap ℕ ℤ → ElementRow → ObjectIdMapping
returned_mapping m r = record { old_id = old_id_at m r.id; new_id = r.id; new_version = r.version }

-- `for (const auto &package : packages)`
unfoldable pub process_packages {ℓ} :
    {P : Type 0} {S : Type ℓ} → (P → S → Result S) → List P → S → Result S
process_packages process [] s = ok s
process_packages process (p ∷ ps) s = process p s >>= process_packages process ps
