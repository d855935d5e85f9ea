-- ===== src/StdMap.antt =====
-- `std::map` and `std::set`: the operations that the program uses of them.
-- No iteration over these maps is modelled, so the order of the keys is not kept.
use openstreetmap_cgimap.Prelude.{
  ◌≡◌, refl, Bool, true, false, Option, Any, none, some, List, [], ◌∷◌, arith, ◌↔◌, if◌then◌else◌,
  Eq, ◌==◌, ℕ-Eq, String-Eq,
}

abbrev pub StdMap {ℓ κ} : Type ℓ → Type κ → Type (ℓ ⊔ κ)
StdMap K V = List (K × V)

module _ {ℓ κ} {K : Type ℓ} {V : Type κ} ⦃e : Eq K⦄ where
  -- `m.find(k)`, with `none` for `m.end()`.
  unfoldable pub find : K → StdMap K V → Option V
  find k [] = none
  find k ((j, v) ∷ m) = if k == j then some v else find k m

  -- `m.contains(k)`
  unfoldable pub contains : K → StdMap K V → Bool
  unfolding find
  contains k m = elim (find k m) [ none ↦ false | some _ ↦ true ]

  -- `m.insert({k, v})`: an entry that is there stays, and the flag says whether one was added.
  unfoldable pub insert : K → V → StdMap K V → StdMap K V × Bool
  unfolding contains
  insert k v m = if contains k m then (m, false) else ((k, v) ∷ m, true)

  -- `m[k] = v`
  unfoldable pub assign : K → V → StdMap K V → StdMap K V
  assign k v m = (k, v) ∷ m

  pub find-assign :
      (k j : K) (v : V) (m : StdMap K V)
      → find j (assign k v m) ≡ (if j == k then some v else find j m)
  unfolding find assign
  find-assign k j v m = refl

  pub contains-insert :
      (k j : K) (v : V) (m : StdMap K V)
      → contains j (insert k v m).0 ≡ (if j == k then true else contains j m)
  unfolding insert
  contains-insert k j v m = ground (arith, e.beq_iff j k)

  pub find-insert :
      (k j : K) (v : V) (m : StdMap K V)
      → find j (insert k v m).0
        ≡ (if j == k then (if contains k m then find j m else some v) else find j m)
  unfolding insert
  find-insert k j v m = ground (arith, e.beq_iff j k)

-- The keys inserted one after the other, the flags not read: of two entries with one key the
-- earlier counts.
unfoldable pub insert_all {ℓ κ ι} :
    {K : Type ℓ} {V : Type κ} {A : Type ι} ⦃e : Eq K⦄
    → (A → K)
    → (A → V)
    → List A
    → StdMap K V
    → StdMap K V
insert_all key value [] m = m
insert_all key value (x ∷ xs) m = insert_all key value xs (insert (key x) (value x) m).0

-- The first element of a list with the key.
abbrev pub find_first {ℓ ι} : {K : Type ℓ} {A : Type ι} ⦃e : Eq K⦄ → (A → K) → K → List A → Option A
find_first key k [] = none
find_first key k (x ∷ xs) = if k == key x then some x else find_first key k xs

pub find-insert_all {ℓ κ ι} :
    {K : Type ℓ} {V : Type κ} {A : Type ι} ⦃e : Eq K⦄ (key : A → K) (value : A → V) (k : K)
    (xs : List A) (m : StdMap K V)
    → find k (insert_all key value xs m) ≡ (elim (find k m) [
      | some v ↦ some v
      | none ↦ elim (find_first key k xs) [ none ↦ none | some x ↦ some (value x) ]
    ])
unfolding insert_all contains
find-insert_all ⦃e⦄ key value k [] m = ground arith
find-insert_all ⦃e⦄ key value k (x ∷ xs) m = ground (
  arith,
  find-insert_all key value k xs (insert (key x) (value x) m).0,
  find-insert (key x) k (value x) m,
  e.beq_iff k (key x),
)

pub find_first_key {ι} :
    {K : Type 0} {A : Type ι} ⦃e : Eq K⦄ (key : A → K) (k : K) (xs : List A) {x : A}
    → find_first key k xs ≡ some x
    → key x ≡ k
find_first_key ⦃e⦄ key k [] h = cc
find_first_key ⦃e⦄ key k (y ∷ ys) {x} h =
    ground (arith, find_first_key key k ys {x = x}, e.beq_iff k (key y))

abbrev pub is_some {ℓ} : {A : Type ℓ} → Option A → Bool
is_some none = false
is_some (some x) = true

pub find_first_iff {ι} :
    {K : Type 0} {A : Type ι} ⦃e : Eq K⦄ (key : A → K) (k : K) (xs : List A)
    → (is_some (find_first key k xs) ≡ true) ↔ Any (λ x. k ≡ key x) xs
find_first_iff ⦃e⦄ key k [] = ground arith
find_first_iff ⦃e⦄ key k (x ∷ xs) = ground (arith, find_first_iff key k xs, e.beq_iff k (key x))
