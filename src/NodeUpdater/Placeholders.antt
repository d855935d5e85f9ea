-- ===== src/NodeUpdater/Placeholders.antt =====
-- node_updater.cpp: placeholder ids, which are negative, and their replacement by the ids that the
-- database has assigned.
use openstreetmap_cgimap.NodeUpdater.{NodeT}
use openstreetmap_cgimap.Tracking.{ObjectIdMapping}
use openstreetmap_cgimap.Prelude.{ℕ, none, some, List, [], ◌∷◌, if◌then◌else◌, ℕ-Eq, String-Eq}
use openstreetmap_cgimap.Prelude.Int.{ℤ, pos, ltb_ℤ, ℤ-Eq}
use openstreetmap_cgimap.StdMap.{StdMap, find, insert}
use openstreetmap_cgimap.Types.{Error, bad_request, Result, ok, err, ◌>>=◌, ObjectType-Eq, Pair-Eq}

abbrev pub duplicate_placeholder : Error
duplicate_placeholder = bad_request "Duplicate node placeholder id {:d}."

abbrev pub placeholder_not_found : Error
placeholder_not_found = bad_request "Placeholder id not found for node reference {:d}"

abbrev pub placeholder_not_unique : Error
placeholder_not_unique = bad_request "Placeholder IDs must be unique for created elements."

-- The loop that fills a map of the ids of created objects.
unfoldable pub placeholder_map : Error → List ObjectIdMapping → StdMap ℤ ℕ → Result (StdMap ℤ ℕ)
placeholder_map duplicate [] m = ok m
placeholder_map duplicate (i ∷ is) m =
    let (m', inserted) = insert i.old_id i.new_id m in
    let rest = placeholder_map duplicate is m' in if inserted then rest else err duplicate

-- The body of the second loop of `replace_old_ids_in_nodes`.
unfoldable pub replace_old_id : StdMap ℤ ℕ → NodeT → Result NodeT
replace_old_id m n =
    if ltb_ℤ n.old_id (pos 0)
    then (elim (find n.old_id m) [
      | none ↦ err placeholder_not_found
      | some i ↦ ok (record n { id = i })
    ])
    else ok n

unfoldable pub replace_old_ids : StdMap ℤ ℕ → List NodeT → Result (List NodeT)
replace_old_ids m [] = ok []
replace_old_ids m (n ∷ ns) = do n' ← replace_old_id m n; ns' ← replace_old_ids m ns; ok (n' ∷ ns')

unfoldable pub replace_old_ids_in_nodes : List NodeT → List ObjectIdMapping → Result (List NodeT)
unfolding placeholder_map replace_old_ids replace_old_id insert find
replace_old_ids_in_nodes nodes created = do
  m ← placeholder_map duplicate_placeholder created []
  replace_old_ids m nodes

-- The set of the placeholder ids seen so far comes back.
unfoldable pub check_unique_placeholder_ids :
    List NodeT → StdMap ℤ (Unit {0}) → Result (StdMap ℤ (Unit {0}))
unfolding insert
check_unique_placeholder_ids [] ids = ok ids
check_unique_placeholder_ids (n ∷ ns) ids =
    let (ids', inserted) = insert n.old_id tt ids in
    let rest = check_unique_placeholder_ids ns ids' in
    if inserted then rest else err placeholder_not_unique
