-- ===== src/Packages.antt =====
-- `build_packages` of the node, way and relation updaters: several versions of one object in a
-- block of modifications are processed one after the other, so they go to different packages.
pub mod Spread
mod Tests
use openstreetmap_cgimap.Prelude.{
  ℕ, zero, suc, ◌+◌, ◌%◌, ◌^◌, Option, none, some, List, [], ◌∷◌, ◌++◌, ltb, if◌then◌else◌, ℕ-Eq,
  String-Eq, length,
}
use openstreetmap_cgimap.Prelude.Int.{ℤ-Eq}
use openstreetmap_cgimap.StdMap.{StdMap, find, assign}
use openstreetmap_cgimap.Types.{ObjectType-Eq, Pair-Eq}

-- The counters `id_to_package`, of type `unsigned int`.
abbrev pub u32_mod : ℕ
u32_mod = 2 ^ 32

-- The counter of an id after one more object with it.
unfoldable pub next_package : ℕ → StdMap ℕ ℕ → ℕ
next_package i m = elim (find i m) [ none ↦ 0 | some n ↦ (n + 1) % u32_mod ]

module _ {A : Type 0} where
  -- `result.at(k).emplace_back(x)`: `none` for the exception of a position out of range.
  unfoldable pub append_at : ℕ → A → List (List A) → Option (List (List A))
  append_at k x [] = none
  append_at zero x (p ∷ ps) = some ((p ++ x ∷ []) ∷ ps)
  append_at (suc k) x (p ∷ ps) = elim (append_at k x ps) [ none ↦ none | some qs ↦ some (p ∷ qs) ]

  -- `if (k + 1 > result.size()) result.emplace_back();`
  unfoldable pub make_room : ℕ → List (List A) → List (List A)
  make_room k result = if ltb (length result) ((k + 1) % u32_mod) then result ++ [] ∷ [] else result

module _ {A : Type 0} (id_of : A → ℕ) where
  -- The loop over the objects.
  unfoldable pub build_from : List A → List (List A) → StdMap ℕ ℕ → Option (List (List A))
  build_from [] result m = some result
  build_from (x ∷ xs) result m =
      let k = next_package (id_of x) m in
      elim (append_at k x (make_room k result)) [
        | none ↦ none
        | some result' ↦ build_from xs result' (assign (id_of x) k m)
      ]

  unfoldable pub build_packages : List A → Option (List (List A))
  unfolding build_from append_at make_room next_package find assign
  build_packages xs = build_from xs [] []
