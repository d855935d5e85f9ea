-- ===== src/Element/Deletion.antt =====
-- Deletions with the flag if-unused, in way_updater.cpp and relation_updater.cpp.
use openstreetmap_cgimap.Prelude.{
  ℕ, Bool, true, false, not, ◌&&◌, List, [], ◌∷◌, map, if◌then◌else◌, ℕ-Eq, String-Eq,
}
use openstreetmap_cgimap.Prelude.Int.{ℤ-Eq}
use openstreetmap_cgimap.Types.{Error, Result, ok, err, ◌>>=◌, ObjectType-Eq, Pair-Eq}
use openstreetmap_cgimap.Database.{ElementRow}
use openstreetmap_cgimap.Tracking.{ObjectIdMapping}
use openstreetmap_cgimap.NodeUpdater.Tables.{mem_id}
use openstreetmap_cgimap.Element.{ItemT, ids_of, id_to_old_id, returned_mapping}

-- `SELECT … WHERE id = ANY($1) AND visible = false`
unfoldable pub invisible_rows : List ℕ → List ElementRow → List ElementRow
invisible_rows ids [] = []
invisible_rows ids (r ∷ rs) =
    if mem_id r.id ids && not r.visible then r ∷ invisible_rows ids rs else invisible_rows ids rs

-- The loop over the rows that are already deleted: the ids found, and the rows to report.
unfoldable pub split_deleted :
    Error → List ℕ → List ℕ → List ElementRow → Result (List ℕ × List ElementRow)
split_deleted already_deleted with_flag without_flag [] = ok ([], [])
split_deleted already_deleted with_flag without_flag (r ∷ rs) =
    let rest = split_deleted already_deleted with_flag without_flag rs in
    if mem_id r.id without_flag then err already_deleted else (do
      (ids, reported) ← rest
      ok (r.id ∷ ids, if mem_id r.id with_flag then r ∷ reported else reported))

module _ {M : Type 0} where
  -- The ids of the items with, or without, the flag if-unused.
  unfoldable pub ids_with_flag : Bool → List (ItemT M) → List ℕ
  ids_with_flag flag [] = []
  ids_with_flag flag (n ∷ ns) =
      let rest = ids_with_flag flag ns in
      if n.if_unused
      then (if flag then n.id ∷ rest else rest)
      else (if flag then rest else n.id ∷ rest)

  -- `std::erase_if`, and the loop that leaves out the items with an id of a set
  unfoldable pub without_ids : List ℕ → List (ItemT M) → List (ItemT M)
  without_ids ids [] = []
  without_ids ids (n ∷ ns) = if mem_id n.id ids then without_ids ids ns else n ∷ without_ids ids ns

  -- The entries of the tracking object for deletions that are skipped.
  abbrev pub skipped : List (ItemT M) → List ElementRow → List ObjectIdMapping
  unfolding id_to_old_id
  skipped items rows = map (returned_mapping (id_to_old_id items [])) rows

  -- The items that are deleted already: their ids, and the rows to report.
  unfoldable pub already_deleted_items :
      Error → List (ItemT M) → List ElementRow → Result (List ℕ × List ElementRow)
  unfolding split_deleted invisible_rows ids_with_flag
  already_deleted_items e items rows =
      split_deleted e (ids_with_flag true items) (ids_with_flag false items)
        (invisible_rows (ids_of items) rows)
