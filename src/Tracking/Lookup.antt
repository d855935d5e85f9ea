-- ===== src/Tracking/Lookup.antt =====
-- The maps of `assemble_diffresult` look up what the lists of the tracking object hold.
use openstreetmap_cgimap.Prelude.{
  ℕ, ◌≡◌, refl, ◌∙◌, true, false, Option, none, some, List, [], ◌∷◌, arith, if◌then◌else◌, Eq, ◌==◌,
  ℕ-Eq, String-Eq,
}
use openstreetmap_cgimap.Prelude.Int.{ℤ, ℤ-Eq}
use openstreetmap_cgimap.StdMap.{find, contains, insert_all, find-insert_all, find_first}
use openstreetmap_cgimap.Types.{ObjectType, node, way, relation, ObjectType-Eq, Pair-Eq}
use openstreetmap_cgimap.Tracking.{
  ObjectIdMapping, OsmChangeTracking, self, present, map_create_ids, map_modify_ids,
  map_skip_delete_ids, set_delete_ids,
}

abbrev pub old_id_of : ObjectIdMapping → ℤ
old_id_of m = m.old_id

abbrev pub edition_of : ObjectIdMapping → ℤ × ℕ
edition_of m = (m.old_id, m.new_version)

-- The list for a type, of three.
abbrev pub of_type {ℓ} : {A : Type ℓ} → A → A → A → ObjectType → A
of_type n w r node = n
of_type n w r way = w
of_type n w r relation = r

module _ {K A V : Type 0} ⦃e : Eq K⦄ (key : A → K) (value : A → V) (k : K) where
  -- Keys of another type do not match.
  find_first_typed :
      (t u : ObjectType) (xs : List A)
      → find_first {K = ObjectType × K} (λ x. (t, key x)) (u, k) xs
        ≡ (if u == t then find_first key k xs else none)
  find_first_typed t u [] = ground arith
  find_first_typed t u (x ∷ xs) = ground (arith, find_first_typed t u xs)

  -- Three lists inserted one after the other, each under its own type.
  pub find-insert_all_typed :
      (t : ObjectType) (xs ys zs : List A)
      → find
          (t, k)
          (insert_all {K = ObjectType × K}
            (λ x. (relation, key x))
            value
            zs
            (insert_all (λ x. (way, key x)) value ys (insert_all (λ x. (node, key x)) value xs [])))
        ≡ (elim (find_first key k (of_type xs ys zs t)) [ none ↦ none | some x ↦ some (value x) ])
  unfolding find
  find-insert_all_typed t xs ys zs = simp find-insert_all (
      ground (
        arith,
        find_first_typed node t xs,
        find_first_typed way t ys,
        find_first_typed relation t zs,
      ))

module _ (ct : OsmChangeTracking) where
  abbrev pub created_ids : ObjectType → List ObjectIdMapping
  created_ids = of_type ct.created_node_ids ct.created_way_ids ct.created_relation_ids

  abbrev pub modified_ids : ObjectType → List ObjectIdMapping
  modified_ids = of_type ct.modified_node_ids ct.modified_way_ids ct.modified_relation_ids

  abbrev pub skip_deleted_ids : ObjectType → List ObjectIdMapping
  skip_deleted_ids =
      of_type ct.skip_deleted_node_ids ct.skip_deleted_way_ids ct.skip_deleted_relation_ids

  abbrev pub deleted_ids : ObjectType → List ℤ
  deleted_ids = of_type ct.deleted_node_ids ct.deleted_way_ids ct.deleted_relation_ids

abbrev pub same {ℓ} : {A : Type ℓ} → Option A → Option A
same o = elim o [ none ↦ none | some x ↦ some x ]

pub same_lem {ℓ} : {A : Type ℓ} (o : Option A) → same o ≡ o
same_lem none = refl
same_lem (some x) = refl

module _ (ct : OsmChangeTracking) (t : ObjectType) (i : ℤ) where
  pub find-map_create_ids :
      find (t, i) (map_create_ids ct) ≡ find_first old_id_of i (created_ids ct t)
  unfolding map_create_ids
  find-map_create_ids =
      find-insert_all_typed old_id_of self i t ct.created_node_ids ct.created_way_ids
        ct.created_relation_ids
      ∙ same_lem _

  pub find-map_modify_ids :
      (v : ℕ)
      → find (t, (i, v)) (map_modify_ids ct) ≡ find_first edition_of (i, v) (modified_ids ct t)
  unfolding map_modify_ids
  find-map_modify_ids v =
      find-insert_all_typed edition_of self (i, v) t ct.modified_node_ids ct.modified_way_ids
        ct.modified_relation_ids
      ∙ same_lem _

  pub find-map_skip_delete_ids :
      find (t, i) (map_skip_delete_ids ct) ≡ find_first old_id_of i (skip_deleted_ids ct t)
  unfolding map_skip_delete_ids
  find-map_skip_delete_ids =
      find-insert_all_typed old_id_of self i t ct.skip_deleted_node_ids ct.skip_deleted_way_ids
        ct.skip_deleted_relation_ids
      ∙ same_lem _

  pub contains-set_delete_ids :
      contains (t, i) (set_delete_ids ct)
      ≡ (elim (find_first (λ (j : ℤ). j) i (deleted_ids ct t)) [ none ↦ false | some _ ↦ true ])
  unfolding set_delete_ids contains
  contains-set_delete_ids = ground (
    arith,
    find-insert_all_typed (λ (j : ℤ). j) present i t ct.deleted_node_ids ct.deleted_way_ids
        ct.deleted_relation_ids,
  )
