-- ===== src/Packages/Tests.antt =====
-- Packages of concrete objects.
use openstreetmap_cgimap.Prelude.{
  ℕ, ◌≡◌, refl, some, List, [], ◌∷◌, arith, ℕ-Eq, String-Eq, get_elem?, get_or, to_list,
}
use openstreetmap_cgimap.Prelude.Int.{ℤ-Eq}
use openstreetmap_cgimap.Types.{ObjectType-Eq, Pair-Eq}
use openstreetmap_cgimap.Packages.{build_packages}
use openstreetmap_cgimap.Packages.Spread.{only, build_packages-spread}

abbrev id_of : ℕ × ℕ → ℕ
id_of x = x.0

abbrev objects : List (ℕ × ℕ)
objects = (7, 1) ∷ (8, 1) ∷ (7, 2) ∷ (7, 3) ∷ (8, 2) ∷ []

three_packages :
    build_packages id_of objects
    ≡ some (((7, 1) ∷ (8, 1) ∷ []) ∷ ((7, 2) ∷ (8, 2) ∷ []) ∷ ((7, 3) ∷ []) ∷ [])
unfolding build_packages
three_packages = refl

build_packages-spread_example :
    (ps : List (List (ℕ × ℕ))) × (build_packages id_of objects ≡ some ps)
    × ((i j : ℕ) → only id_of i (get_or ps j []) ≡ to_list (get_elem? (only id_of i objects) j))
build_packages-spread_example = build_packages-spread id_of objects (omega arith)
