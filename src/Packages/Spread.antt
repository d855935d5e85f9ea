-- ===== src/Packages/Spread.antt =====
-- What `build_packages` returns: the j-th package holds the j-th object of every id.
use mathlib.Core.List.{append-nil, append_assoc}
use openstreetmap_cgimap.StdMap.{find-assign, find, assign, StdMap}
use openstreetmap_cgimap.Prelude.{
  get_elem?-none, get_elem?-append, length-append_one, get_elem?, to_list, none, Option, ℕ, zero,
  suc, ◌+◌, ◌≤◌, ◌<◌, ◌≡◌, refl, ap, some, List, [], ◌∷◌, ◌++◌, arith, eqb, if◌then◌else◌, ℕ-Eq,
  String-Eq, length, length-append, get_or, get_or-append, get_or_default,
}
use openstreetmap_cgimap.Prelude.Int.{ℤ-Eq}
use openstreetmap_cgimap.Types.{ObjectType-Eq, Pair-Eq}
use openstreetmap_cgimap.Packages.{
  build_packages, build_from, next_package, u32_mod, append_at, make_room,
}

module _ {A : Type 0} (id_of : A → ℕ) where
  -- The objects with one id, in their order.
  abbrev pub only : ℕ → List A → List A
  only i [] = []
  only i (x ∷ xs) = if eqb (id_of x) i then x ∷ only i xs else only i xs

  only-append : (i : ℕ) (xs ys : List A) → only i (xs ++ ys) ≡ only i xs ++ only i ys
  only-append i [] ys = refl
  only-append i (x ∷ xs) ys = ground (arith, only-append i xs ys)

  pub only-append_one :
      (i : ℕ) (xs : List A) (x : A)
      → only i (xs ++ x ∷ []) ≡ (if eqb (id_of x) i then only i xs ++ x ∷ [] else only i xs)
  only-append_one i [] x = ground arith
  only-append_one i (y ∷ xs) x = ground (arith, only-append_one i xs x)

  length-only-le : (i : ℕ) (xs : List A) → length (only i xs) ≤ length xs
  length-only-le i [] = omega arith
  length-only-le i (x ∷ xs) = ground (arith, length-only-le i xs)

module _ {A : Type 0} where
  -- `append_at` at a position in range.
  abbrev put_at : ℕ → A → List (List A) → List (List A)
  put_at k x [] = []
  put_at zero x (p ∷ ps) = (p ++ x ∷ []) ∷ ps
  put_at (suc k) x (p ∷ ps) = p ∷ put_at k x ps

  get_or-put_at :
      (k j : ℕ) (x : A) (ps : List (List A))
      → k < length ps
      → get_or (put_at k x ps) j [] ≡ (if eqb j k then get_or ps k [] ++ x ∷ [] else get_or ps j [])
  get_or-put_at k j x [] h = absurd (omega arith)
  get_or-put_at zero zero x (p ∷ ps) h = ground arith
  get_or-put_at zero (suc j) x (p ∷ ps) h = ground arith
  get_or-put_at (suc k) zero x (p ∷ ps) h = ground arith
  get_or-put_at (suc k) (suc j) x (p ∷ ps) h = ground (arith, get_or-put_at k j x ps)

  length-put_at : (k : ℕ) (x : A) (ps : List (List A)) → length (put_at k x ps) ≡ length ps
  length-put_at k x [] = refl
  length-put_at zero x (p ∷ ps) = refl
  length-put_at (suc k) x (p ∷ ps) = ap suc (length-put_at k x ps)

  append_at_in_range :
      (k : ℕ) (x : A) (ps : List (List A)) → k < length ps → append_at k x ps ≡ some (put_at k x ps)
  unfolding append_at
  append_at_in_range k x [] h = absurd (omega arith)
  append_at_in_range zero x (p ∷ ps) h = refl
  append_at_in_range (suc k) x (p ∷ ps) h = ground (arith, append_at_in_range k x ps)

  get_or-make_room : (k j : ℕ) (ps : List (List A)) → get_or (make_room k ps) j [] ≡ get_or ps j []
  unfolding make_room
  get_or-make_room k j ps = ground (arith, get_or-append ps [] [] j, get_or_default ps j [])

  length-make_room :
      (k : ℕ) (ps : List (List A))
      → k ≤ length ps
      → k + 1 < u32_mod
      → (k < length (make_room k ps)) × (length ps ≤ length (make_room k ps))
  unfolding make_room
  length-make_room k ps h s = ground (arith, length-append ps ([] ∷ []))

-- The counter of an id with n objects.
abbrev last_index : ℕ → Option ℕ
last_index zero = none
last_index (suc n) = some n

-- The state of the loop after the objects `done`.
module _ {A : Type 0} (id_of : A → ℕ) where
  record IsSpread (done : List A) (result : List (List A)) (m : StdMap ℕ ℕ) : Type 0 where
    counted : (i : ℕ) → find i m ≡ last_index (length (only id_of i done))
    enough : (i : ℕ) → length (only id_of i done) ≤ length result
    spread :
        (i j : ℕ) → only id_of i (get_or result j []) ≡ to_list (get_elem? (only id_of i done) j)

  next_package-IsSpread :
      (x : A) {done : List A} {result : List (List A)} {m : StdMap ℕ ℕ}
      → IsSpread done result m
      → length done + 1 < u32_mod
      → next_package (id_of x) m ≡ length (only id_of (id_of x) done)
  unfolding next_package
  next_package-IsSpread x {done} {result} {m} s small =
      ground (arith, s.counted (id_of x), length-only-le id_of (id_of x) done)

  step-IsSpread :
      (x : A) (k : ℕ) {done : List A} {result : List (List A)} {m : StdMap ℕ ℕ}
      → IsSpread done result m
      → length done + 1 < u32_mod
      → k ≡ length (only id_of (id_of x) done)
      → IsSpread (done ++ x ∷ []) (put_at k x (make_room k result)) (assign (id_of x) k m)
  step-IsSpread x k {done} {result} {m} s small e = record {
    counted = λ i. rw find-assign (
        ground (
          arith,
          only-append_one id_of i done x,
          length-append_one (only id_of i done) x,
          s.counted i,
        ));
    enough = λ i. ground (
      arith,
      only-append_one id_of i done x,
      length-append_one (only id_of i done) x,
      s.enough i,
      s.enough (id_of x),
      length-put_at k x (make_room k result),
      length-make_room k result,
      length-only-le id_of (id_of x) done,
    );
    spread = λ i j. ground (
      arith,
      only-append_one id_of i done x,
      get_or-put_at k j x (make_room k result),
      get_or-make_room k j result,
      get_or-make_room k k result,
      only-append_one id_of i (get_or result k []) x,
      s.spread i j,
      s.spread i k,
      s.enough (id_of x),
      length-only-le id_of (id_of x) done,
      length-make_room k result,
      get_elem?-append (only id_of i done) x j,
      get_elem?-none (only id_of i done) j,
      get_elem?-none (only id_of i done) k,
    );
  }

  build_from-IsSpread :
      (rest done : List A) (result : List (List A)) (m : StdMap ℕ ℕ)
      → IsSpread done result m
      → length done + length rest < u32_mod
      → (ps : List (List A)) × (build_from id_of rest result m ≡ some ps)
        × ((i j : ℕ)
            → only id_of i (get_or ps j []) ≡ to_list (get_elem? (only id_of i (done ++ rest)) j))
  unfolding build_from
  build_from-IsSpread [] done result m s small = (result, refl, λ i j. rw append-nil (s.spread i j))
  build_from-IsSpread (x ∷ rest) done result m s small =
      let k = next_package (id_of x) m in
      let e : k ≡ length (only id_of (id_of x) done) = next_package-IsSpread x s (omega arith) in
      let room : k < length (make_room k result) = ground (
        arith,
        length-make_room k result,
        s.enough (id_of x),
        length-only-le id_of (id_of x) done,
      ) in
      let (ps, built, h) =
        build_from-IsSpread rest (done ++ x ∷ []) (put_at k x (make_room k result))
          (assign (id_of x) k m) (step-IsSpread x k s (omega arith) e)
          (omega (arith, length-append_one done x)) in
      (
        ps,
        rw (append_at_in_range k x (make_room k result) room, build_from) built,
        λ i j. rw (append_assoc done (x ∷ []) rest) at (h i j),
      )

  -- The packages are built (no position is out of range), and whatever id and position: of the
  -- objects with the id, the j-th package holds the j-th of the input and no other. So a package
  -- has no id twice, no object is lost, and the objects of one id stay in order. The condition is
  -- that there are fewer than 2^32 objects, so that no counter wraps around.
  pub build_packages-spread :
      (xs : List A)
      → length xs < u32_mod
      → (ps : List (List A)) × (build_packages id_of xs ≡ some ps)
        × ((i j : ℕ) → only id_of i (get_or ps j []) ≡ to_list (get_elem? (only id_of i xs) j))
  unfolding build_packages
  build_packages-spread xs small =
      build_from-IsSpread xs [] [] []
        (record { counted = λ i. refl; enough = λ i. omega arith; spread = λ i j. refl })
        (omega arith)
