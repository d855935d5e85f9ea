-- ===== src/NodeUpdater/Resolved.antt =====
-- What the replacement of placeholder ids does, and when it is refused.
use openstreetmap_cgimap.NodeUpdater.Placeholders.{duplicate_placeholder}
use openstreetmap_cgimap.Types.{Error}
use openstreetmap_cgimap.NodeUpdater.{NodeT}
use openstreetmap_cgimap.Tracking.{ObjectIdMapping}
use openstreetmap_cgimap.NodeUpdater.Placeholders.{
  replace_old_id, replace_old_ids_in_nodes, placeholder_map, replace_old_ids,
}
use openstreetmap_cgimap.Prelude.{
  inr, inl, All, Any, true, ◌⊎◌, refl, ◌↔◌, false, ℕ, ◌≡◌, ap₂, Option, none, some, List, [], ◌∷◌,
  map, arith, if◌then◌else◌, ℕ-Eq, String-Eq,
}
use openstreetmap_cgimap.Prelude.Int.{ℤ, pos, ltb_ℤ, eqb_ℤ_iff, ℤ-Eq}
use openstreetmap_cgimap.StdMap.{
  find_first_iff, StdMap, find, contains, insert, find-insert, find_first,
}
use openstreetmap_cgimap.Types.{
  Result-cases, is_ok, ok, >>=-eq-ok, ok-injective, ObjectType-Eq, Pair-Eq,
}
use openstreetmap_cgimap.Tracking.Lookup.{old_id_of}

-- The new id of an old id, among the objects created.
abbrev pub new_id_of : List ObjectIdMapping → ℤ → Option ℕ
new_id_of created k = elim (find_first old_id_of k created) [ none ↦ none | some m ↦ some m.new_id ]

-- No two created objects have one old id.
abbrev pub AreDistinct : List ObjectIdMapping → Type 0
AreDistinct [] = Unit {0}
AreDistinct (m ∷ ms) = (find_first old_id_of m.old_id ms ≡ none) × AreDistinct ms

abbrev pub or_else : Option ℕ → Option ℕ → Option ℕ
or_else none o = o
or_else (some v) o = some v

pub find-placeholder_map :
    (e : Error) (k : ℤ) (created : List ObjectIdMapping) (m : StdMap ℤ ℕ) {m' : StdMap ℤ ℕ}
    → placeholder_map e created m ≡ ok m'
    → find k m' ≡ or_else (find k m) (new_id_of created k)
unfolding placeholder_map insert contains
find-placeholder_map e k [] m h = ground arith
find-placeholder_map e k (i ∷ is) m {m'} h = ground (
  arith,
  find-placeholder_map e k is (insert i.old_id i.new_id m).0 {m' = m'},
  find-insert i.old_id k i.new_id m,
  eqb_ℤ_iff k i.old_id,
)

-- A node after the replacement.
abbrev pub resolved : List ObjectIdMapping → NodeT → NodeT
resolved created n =
    if ltb_ℤ n.old_id (pos 0)
    then (elim (new_id_of created n.old_id) [ none ↦ n | some i ↦ record n { id = i } ])
    else n

replace_old_ids-resolved :
    (created : List ObjectIdMapping) (m : StdMap ℤ ℕ) (nodes : List NodeT) {nodes' : List NodeT}
    → ((k : ℤ) → find k m ≡ new_id_of created k)
    → replace_old_ids m nodes ≡ ok nodes'
    → nodes' ≡ map (resolved created) nodes
unfolding replace_old_ids
replace_old_ids-resolved created m [] same h = ground arith
replace_old_ids-resolved created m (n ∷ nodes) {nodes'} same h =
    let (n', first, h1) = >>=-eq-ok (replace_old_id m n) _ h in
    let (ns', others, h2) = >>=-eq-ok (replace_old_ids m nodes) _ h1 in
    rw (← ok-injective h2) (
      ap₂ ◌∷◌ (unfold replace_old_id in ground (arith, same n.old_id))
        (replace_old_ids-resolved created m nodes same others))

-- When the replacement is not refused, every node with a placeholder id has the id that the
-- database gave to the created node of that placeholder; every other node, and every other field,
-- is as it was.
pub replace_old_ids_in_nodes-resolved :
    (nodes : List NodeT) (created : List ObjectIdMapping) (nodes' : List NodeT)
    → replace_old_ids_in_nodes nodes created ≡ ok nodes'
    → nodes' ≡ map (resolved created) nodes
unfolding replace_old_ids_in_nodes
replace_old_ids_in_nodes-resolved nodes created nodes' h =
    let (m, built, h1) = >>=-eq-ok (placeholder_map duplicate_placeholder created []) _ h in
    replace_old_ids-resolved created m nodes
      (λ k. find-placeholder_map duplicate_placeholder k created [] built) h1

-- A node has no placeholder id, or one that a created node has.
abbrev pub IsResolvable : List ObjectIdMapping → NodeT → Type 0
IsResolvable created n = (ltb_ℤ n.old_id (pos 0) ≡ false) ⊎ Any (λ m. n.old_id ≡ m.old_id) created

-- No id of the list is a key of the map.
abbrev pub AreNew : List ObjectIdMapping → StdMap ℤ ℕ → Type 0
AreNew [] m = Unit {0}
AreNew (i ∷ is) m = (find i.old_id m ≡ none) × AreNew is m

new_in_empty : (is : List ObjectIdMapping) → AreNew is []
unfolding find
new_in_empty [] = tt
new_in_empty (i ∷ is) = (refl, new_in_empty is)

AreNew-insert :
    (i : ObjectIdMapping) (is : List ObjectIdMapping) (m : StdMap ℤ ℕ)
    → find i.old_id m ≡ none
    → AreNew is (insert i.old_id i.new_id m).0
      ↔ (AreNew is m × (find_first old_id_of i.old_id is ≡ none))
unfolding contains
AreNew-insert i [] m e = ground arith
AreNew-insert i (j ∷ is) m e = ground (
  arith,
  AreNew-insert i is m e,
  find-insert i.old_id j.old_id i.new_id m,
  eqb_ℤ_iff j.old_id i.old_id,
  eqb_ℤ_iff i.old_id j.old_id,
)

pub placeholder_map_iff :
    (e : Error) (created : List ObjectIdMapping) (m : StdMap ℤ ℕ)
    → (is_ok (placeholder_map e created m) ≡ true) ↔ (AreDistinct created × AreNew created m)
unfolding placeholder_map insert contains
placeholder_map_iff e [] m = ground arith
placeholder_map_iff e (i ∷ is) m =
    ground (arith, placeholder_map_iff e is ((i.old_id, i.new_id) ∷ m), AreNew-insert i is m)

replace_old_ids_iff :
    (created : List ObjectIdMapping) (m : StdMap ℤ ℕ) (nodes : List NodeT)
    → ((k : ℤ) → find k m ≡ new_id_of created k)
    → (is_ok (replace_old_ids m nodes) ≡ true) ↔ All (IsResolvable created) nodes
unfolding replace_old_ids replace_old_id
replace_old_ids_iff created m [] same = ground arith
replace_old_ids_iff created m (n ∷ nodes) same = ground (
  arith,
  replace_old_ids_iff created m nodes same,
  same n.old_id,
  find_first_iff old_id_of n.old_id created,
)

-- The replacement goes through exactly when no two created nodes share a placeholder id and every
-- placeholder id that is used belongs to a created node.
pub replace_old_ids_in_nodes_iff :
    (nodes : List NodeT) (created : List ObjectIdMapping)
    → (is_ok (replace_old_ids_in_nodes nodes created) ≡ true)
      ↔ (AreDistinct created × All (IsResolvable created) nodes)
unfolding replace_old_ids_in_nodes
replace_old_ids_in_nodes_iff nodes created =
    elim (Result-cases (placeholder_map duplicate_placeholder created [])) [
      | inl (m, built) ↦ ground (
        arith,
        built,
        placeholder_map_iff duplicate_placeholder created [],
        new_in_empty created,
        replace_old_ids_iff created m nodes
            (λ k. find-placeholder_map duplicate_placeholder k created [] built),
      )
      | inr (e, refused) ↦ ground (
        arith,
        refused,
        placeholder_map_iff duplicate_placeholder created [],
        new_in_empty created,
      )
    ]
