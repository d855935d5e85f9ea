-- ===== src/NodeUpdater/Serial.antt =====
-- `process_modify_nodes`: the modifications of one node are applied in the order of the message,
-- one after the other, and none is lost.
use openstreetmap_cgimap.NodeUpdater.Resolved.{replace_old_ids_in_nodes-resolved}
use openstreetmap_cgimap.NodeUpdater.Placeholders.{replace_old_ids_in_nodes}
use openstreetmap_cgimap.NodeUpdater.Versions.{
  version_of-update_rows, all_agree, process_package-eq-ok, agrees_all, raised, version_of,
}
use openstreetmap_cgimap.Database.{NodeRow}
use openstreetmap_cgimap.NodeUpdater.Tables.{unique_ids, lock_current_nodes, ids_of, mem_id}
use openstreetmap_cgimap.NodeUpdater.{NodeUpdater, NodeT}
use openstreetmap_cgimap.NodeUpdater.Process.{
  node_packages, process_modify_nodes, process_package, process_packages,
}
use openstreetmap_cgimap.Prelude.{
  ◌∙◌, sym, ℕ, suc, ◌+◌, ◌<◌, ◌≡◌, refl, ap, true, false, some, List, [], ◌∷◌, map, arith, ℕ-Eq,
  String-Eq, length, get_elem?, get_or, to_list,
}
use openstreetmap_cgimap.Prelude.Int.{ℤ-Eq}
use openstreetmap_cgimap.Types.{ok, >>=-eq-ok, ok-injective, ObjectType-Eq, Pair-Eq}
use openstreetmap_cgimap.Packages.{u32_mod}
use openstreetmap_cgimap.Packages.Spread.{only, build_packages-spread}

abbrev node_id : NodeT → ℕ
node_id n = n.id

-- The modifications of the node i, in the order of the message.
abbrev pub modifications : ℕ → List NodeT → List NodeT
modifications i nodes = only node_id i nodes

mem_id-only :
    (i : ℕ) (p : List NodeT)
    → mem_id i (ids_of p) ≡ (elim (modifications i p) [ [] ↦ false | _ ↦ true ])
mem_id-only i [] = refl
mem_id-only i (n ∷ p) = ground (arith, mem_id-only i p)

first-agrees :
    (i : ℕ) (p : List NodeT) (r : NodeRow) (n : NodeT) (rest : List NodeT)
    → agrees_all p r ≡ true
    → r.id ≡ i
    → modifications i p ≡ n ∷ rest
    → n.version ≡ r.version
first-agrees i [] r n rest h e o = cc
first-agrees i (m ∷ p) r n rest h e o = ground (arith, first-agrees i p r n rest)

version-agrees :
    (i v : ℕ) (p : List NodeT) (rs : List NodeRow) (n : NodeT) (rest : List NodeT)
    → all_agree p rs ≡ true
    → version_of i rs ≡ some v
    → modifications i p ≡ n ∷ rest
    → n.version ≡ v
unfolding all_agree
version-agrees i v p [] n rest h e o = cc
version-agrees i v p (r ∷ rs) n rest h e o =
    ground (arith, version-agrees i v p rs n rest, first-agrees i p r n rest)

-- The modifications name the versions v, v + 1, v + 2, …
abbrev pub Consecutive : ℕ → List NodeT → Type 0
Consecutive v [] = Unit {0}
Consecutive v (n ∷ ns) = (n.version ≡ v) × Consecutive (v + 1) ns

module _ (i : ℕ) where
  version_of-process_package :
      (p : List NodeT) (s s1 : NodeUpdater)
      → process_package p s ≡ ok s1
      → version_of i s1.db.current_nodes
        ≡ raised (mem_id i (ids_of p)) (version_of i s.db.current_nodes)
  version_of-process_package p s s1 h =
      let (agree, rows) = process_package-eq-ok p s h in
      rw rows (version_of-update_rows i p s.db.current_nodes agree)

  serial :
      (ps : List (List NodeT)) (occ : List NodeT) (v : ℕ) (s s' : NodeUpdater)
      → process_packages ps s ≡ ok s'
      → ((j : ℕ) → modifications i (get_or ps j []) ≡ to_list (get_elem? occ j))
      → version_of i s.db.current_nodes ≡ some v
      → Consecutive v occ × (version_of i s'.db.current_nodes ≡ some (v + length occ))
  unfolding process_packages
  serial [] [] v s s' h spread e = (tt, ground (arith, ok-injective h))
  serial [] (n ∷ occ) v s s' h spread e = cc (spread 0)
  serial (p ∷ ps) [] v s s' h spread e =
      let (s1, done, h1) = >>=-eq-ok (process_package p s) _ h in
      serial ps [] v s1 s' h1 (λ j. spread (suc j))
        (rw (version_of-process_package p s s1 done) (ground (arith, mem_id-only i p, spread 0)))
  serial (p ∷ ps) (n ∷ occ) v s s' h spread e =
      let (s1, done, h1) = >>=-eq-ok (process_package p s) _ h in
      let e1 : version_of i s1.db.current_nodes ≡ some (v + 1) =
        rw (version_of-process_package p s s1 done) (ground (arith, mem_id-only i p, spread 0)) in
      let (rest, final) = serial ps occ (v + 1) s1 s' h1 (λ j. spread (suc j)) e1 in
      (
        (
          version-agrees i v p s.db.current_nodes n [] (process_package-eq-ok p s done).0 e
              (spread 0),
          rest,
        ),
        ground (arith, final),
      )

length-map {ℓ κ} :
    {A : Type ℓ} {B : Type κ} (f : A → B) (xs : List A) → length (map f xs) ≡ length xs
length-map f [] = refl
length-map f (x ∷ xs) = ap suc (length-map f xs)

node_packages-spread :
    (nodes : List NodeT) {ps : List (List NodeT)}
    → length nodes < u32_mod
    → node_packages nodes ≡ ok ps
    → (i j : ℕ) → modifications i (get_or ps j []) ≡ to_list (get_elem? (modifications i nodes) j)
unfolding node_packages
node_packages-spread nodes {ps} small h i j =
    let (qs, built, spread) = build_packages-spread node_id nodes small in
    let same : ps ≡ qs = ground arith in rw same (spread i j)

versions_after_blocks :
    (s s' : NodeUpdater)
    → process_modify_nodes s ≡ ok s'
    → length s.modify_nodes < u32_mod
    → (nodes : List NodeT) × (replace_old_ids_in_nodes s.modify_nodes s.ct.created_node_ids
        ≡ ok nodes)
      × ((i v : ℕ)
          → version_of i s.db.current_nodes ≡ some v
          → Consecutive v (modifications i nodes)
            × (version_of i s'.db.current_nodes ≡ some (v + length (modifications i nodes))))
unfolding process_modify_nodes
versions_after_blocks s s' h small =
    let (nodes, replaced, h1) =
      >>=-eq-ok (replace_old_ids_in_nodes s.modify_nodes s.ct.created_node_ids) _ h in
    let (u, locked, h2) = >>=-eq-ok (lock_current_nodes (unique_ids (ids_of nodes)) s) _ h1 in
    let (ps, built, h3) = >>=-eq-ok (node_packages nodes) _ h2 in
    let (s1, processed, h4) = >>=-eq-ok (process_packages ps s) _ h3 in
    let same =
      replace_old_ids_in_nodes-resolved s.modify_nodes s.ct.created_node_ids nodes replaced in
    let fits : length nodes < u32_mod = rw same (rw length-map small) in
    let rows : s1.db.current_nodes ≡ s'.db.current_nodes =
      ap (λ (t : NodeUpdater). t.db.current_nodes) (ok-injective h4) in
    (
      nodes,
      replaced,
      λ i v e. rw (← rows) (
          serial i ps (modifications i nodes) v s s1 processed
            (node_packages-spread nodes fits built i) e),
    )

-- When the modifications go through, they are the nodes of the buffer with the placeholder ids
-- replaced, and for a node that is in the table with the version v: its modifications name the
-- versions v, v + 1, … in the order of the message, and the table then has the version v plus
-- their number. So no change is applied to a version that its author has not seen. The condition
-- is that the counters of the packages do not wrap around.
pub process_modify_nodes-serial :
    (s s' : NodeUpdater) (nodes : List NodeT) (i v : ℕ)
    → process_modify_nodes s ≡ ok s'
    → replace_old_ids_in_nodes s.modify_nodes s.ct.created_node_ids ≡ ok nodes
    → length s.modify_nodes < u32_mod
    → version_of i s.db.current_nodes ≡ some v
    → Consecutive v (modifications i nodes)
      × (version_of i s'.db.current_nodes ≡ some (v + length (modifications i nodes)))
process_modify_nodes-serial s s' nodes i v h replaced small e =
    let (nodes0, replaced0, all) = versions_after_blocks s s' h small in
    let same : nodes0 ≡ nodes = ok-injective (sym replaced0 ∙ replaced) in rw same at (all i v e)
