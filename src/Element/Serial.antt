-- ===== src/Element/Serial.antt =====
-- Modifications of ways and relations are serialised: every one names the version that it replaces,
-- and raises it by one.
use openstreetmap_cgimap.Prelude.{
  ℕ, suc, ◌+◌, ◌<◌, ◌≡◌, refl, Bool, true, false, not, ◌&&◌, Option, none, some, List, [], ◌∷◌,
  arith, eqb, if◌then◌else◌, ℕ-Eq, String-Eq, length, get_elem?, get_or, to_list,
}
use openstreetmap_cgimap.Prelude.Int.{ℤ-Eq}
use openstreetmap_cgimap.Types.{Error, Result, ok, >>=-eq-ok, ok-injective, ObjectType-Eq, Pair-Eq}
use openstreetmap_cgimap.Database.{ElementRow}
use openstreetmap_cgimap.NodeUpdater.Tables.{mem_id}
use openstreetmap_cgimap.Packages.{u32_mod}
use openstreetmap_cgimap.Packages.Spread.{only, build_packages-spread}
use openstreetmap_cgimap.Element.{
  ItemT, ids_of, has_other_version, check_versions, matching_item, update_rows, item_packages,
  process_packages,
}

-- The version of an element in the table.
abbrev pub version_of : ℕ → List ElementRow → Option ℕ
version_of i [] = none
version_of i (r ∷ rs) = if eqb r.id i then some r.version else version_of i rs

-- The version that is one higher, if the element is among those changed.
abbrev pub raised : Bool → Option ℕ → Option ℕ
raised b none = none
raised b (some v) = some (if b then v + 1 else v)

module _ {M : Type 0} where
  abbrev item_id : ItemT M → ℕ
  item_id n = n.id

  -- The changes of the element i, in the order of the message.
  abbrev pub changes_of : ℕ → List (ItemT M) → List (ItemT M)
  changes_of i items = only item_id i items

  -- The changes name the versions v, v + 1, v + 2, …
  abbrev pub Consecutive : ℕ → List (ItemT M) → Type 0
  Consecutive v [] = Unit {0}
  Consecutive v (n ∷ ns) = (n.version ≡ v) × Consecutive (v + 1) ns

  abbrev agrees : ItemT M → ElementRow → Bool
  agrees n r = not (eqb n.id r.id && not (eqb n.version r.version))

  abbrev agrees_all : List (ItemT M) → ElementRow → Bool
  agrees_all [] r = true
  agrees_all (n ∷ ns) r = agrees n r && agrees_all ns r

  -- No item names another version than the one in the table.
  unfoldable pub all_agree : List (ItemT M) → List ElementRow → Bool
  all_agree ns [] = true
  all_agree ns (r ∷ rs) = agrees_all ns r && all_agree ns rs

  all_agree-nil : (ns : List (ItemT M)) (rs : List ElementRow) → ns ≡ [] → all_agree ns rs ≡ true
  unfolding all_agree
  all_agree-nil ns [] e = refl
  all_agree-nil ns (r ∷ rs) e = ground (arith, all_agree-nil ns rs)

  all_agree-cons :
      (n : ItemT M) (ns : List (ItemT M)) (rs : List ElementRow)
      → all_agree (n ∷ ns) rs ≡ (not (has_other_version n rs) && all_agree ns rs)
  unfolding all_agree has_other_version
  all_agree-cons n ns [] = refl
  all_agree-cons n ns (r ∷ rs) = ground (arith, all_agree-cons n ns rs)

  pub check_versions-all_agree :
      (e : Error) (ns : List (ItemT M)) (rs : List ElementRow)
      → check_versions e ns rs ≡ ok tt
      → all_agree ns rs ≡ true
  unfolding check_versions
  check_versions-all_agree e [] rs h = all_agree-nil [] rs refl
  check_versions-all_agree e (n ∷ ns) rs h =
      ground (arith, all_agree-cons n ns rs, check_versions-all_agree e ns rs)

  matching_item-agrees :
      (r : ElementRow) (ns : List (ItemT M))
      → agrees_all ns r ≡ true
      → (elim (matching_item r ns) [ none ↦ r.version | some n ↦ n.version + 1 ])
        ≡ (if mem_id r.id (ids_of ns) then r.version + 1 else r.version)
  unfolding matching_item
  matching_item-agrees r [] h = refl
  matching_item-agrees r (n ∷ ns) h = ground (arith, matching_item-agrees r ns)

  pub version_of-update_rows :
      (visible : Bool) (i : ℕ) (ns : List (ItemT M)) (rs : List ElementRow)
      → all_agree ns rs ≡ true
      → version_of i (update_rows visible ns rs) ≡ raised (mem_id i (ids_of ns)) (version_of i rs)
  unfolding update_rows all_agree
  version_of-update_rows visible i ns [] h = refl
  version_of-update_rows visible i ns (r ∷ rs) h =
      ground (arith, version_of-update_rows visible i ns rs, matching_item-agrees r ns)

  pub update_rows-nil :
      (visible : Bool) (ns : List (ItemT M)) (rs : List ElementRow)
      → ns ≡ []
      → update_rows visible ns rs ≡ rs
  unfolding update_rows matching_item
  update_rows-nil visible ns [] e = refl
  update_rows-nil visible ns (r ∷ rs) e = ground (arith, update_rows-nil visible ns rs)

  mem_id-only :
      (i : ℕ) (p : List (ItemT M))
      → mem_id i (ids_of p) ≡ (elim (changes_of i p) [ [] ↦ false | _ ↦ true ])
  mem_id-only i [] = refl
  mem_id-only i (n ∷ p) = ground (arith, mem_id-only i p)

  first-agrees :
      (i : ℕ) (p : List (ItemT M)) (r : ElementRow) (n : ItemT M) (rest : List (ItemT M))
      → agrees_all p r ≡ true
      → r.id ≡ i
      → changes_of i p ≡ n ∷ rest
      → n.version ≡ r.version
  first-agrees i [] r n rest h e o = cc
  first-agrees i (m ∷ p) r n rest h e o = ground (arith, first-agrees i p r n rest)

  version-agrees :
      (i v : ℕ) (p : List (ItemT M)) (rs : List ElementRow) (n : ItemT M) (rest : List (ItemT M))
      → all_agree p rs ≡ true
      → version_of i rs ≡ some v
      → changes_of i p ≡ n ∷ rest
      → n.version ≡ v
  unfolding all_agree
  version-agrees i v p [] n rest h e o = cc
  version-agrees i v p (r ∷ rs) n rest h e o =
      ground (arith, version-agrees i v p rs n rest, first-agrees i p r n rest)

  item_packages-spread :
      (items : List (ItemT M)) {ps : List (List (ItemT M))}
      → length items < u32_mod
      → item_packages items ≡ ok ps
      → (i j : ℕ) → changes_of i (get_or ps j []) ≡ to_list (get_elem? (changes_of i items) j)
  unfolding item_packages
  item_packages-spread items {ps} small h i j =
      let (qs, built, spread) = build_packages-spread item_id items small in
      let same : ps ≡ qs = ground arith in rw same (spread i j)

  -- An updater whose step for one package has checked the versions and then updated the rows.
  module _ {S : Type 0} (process : List (ItemT M) → S → Result S) (rows : S → List ElementRow)
      (step : (p : List (ItemT M)) (s s' : S)
        → process p s ≡ ok s'
        → (all_agree p (rows s) ≡ true) × (rows s' ≡ update_rows true p (rows s))) where
    version_of-process :
        (i : ℕ) (p : List (ItemT M)) (s s1 : S)
        → process p s ≡ ok s1
        → version_of i (rows s1) ≡ raised (mem_id i (ids_of p)) (version_of i (rows s))
    version_of-process i p s s1 h =
        let (agree, updated) = step p s s1 h in
        rw updated (version_of-update_rows true i p (rows s) agree)

    serial :
        (i : ℕ) (ps : List (List (ItemT M))) (occ : List (ItemT M)) (v : ℕ) (s s' : S)
        → process_packages process ps s ≡ ok s'
        → ((j : ℕ) → changes_of i (get_or ps j []) ≡ to_list (get_elem? occ j))
        → version_of i (rows s) ≡ some v
        → Consecutive v occ × (version_of i (rows s') ≡ some (v + length occ))
    unfolding process_packages
    serial i [] [] v s s' h spread e = (tt, ground (arith, ok-injective h))
    serial i [] (n ∷ occ) v s s' h spread e = cc (spread 0)
    serial i (p ∷ ps) [] v s s' h spread e =
        let (s1, done, h1) = >>=-eq-ok (process p s) _ h in
        serial i ps [] v s1 s' h1 (λ j. spread (suc j))
          (rw (version_of-process i p s s1 done) (ground (arith, mem_id-only i p, spread 0)))
    serial i (p ∷ ps) (n ∷ occ) v s s' h spread e =
        let (s1, done, h1) = >>=-eq-ok (process p s) _ h in
        let e1 : version_of i (rows s1) ≡ some (v + 1) =
          rw (version_of-process i p s s1 done) (ground (arith, mem_id-only i p, spread 0)) in
        let (rest, final) = serial i ps occ (v + 1) s1 s' h1 (λ j. spread (suc j)) e1 in
        (
          (version-agrees i v p (rows s) n [] (step p s s1 done).0 e (spread 0), rest),
          ground (arith, final),
        )

    -- The packages of a block of modifications, one after the other.
    pub process_packages-serial :
        (items : List (ItemT M)) (ps : List (List (ItemT M))) (i v : ℕ) (s s' : S)
        → length items < u32_mod
        → item_packages items ≡ ok ps
        → process_packages process ps s ≡ ok s'
        → version_of i (rows s) ≡ some v
        → Consecutive v (changes_of i items)
          × (version_of i (rows s') ≡ some (v + length (changes_of i items)))
    process_packages-serial items ps i v s s' small built h e =
        serial i ps (changes_of i items) v s s' h (item_packages-spread items small built i) e
