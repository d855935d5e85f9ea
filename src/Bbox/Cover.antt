-- ===== src/Bbox/Cover.antt =====
-- Which boxes the expansion of a bounding box, of include/cgimap/util.hpp, lies in.
use openstreetmap_cgimap.Prelude.{◌↔◌, arith, ℕ-Eq, String-Eq}
use openstreetmap_cgimap.Prelude.Int.{ℤ, ◌≤ℤ◌, ℤ-Eq}
use openstreetmap_cgimap.Types.{ObjectType-Eq, Pair-Eq}
use openstreetmap_cgimap.Bbox.{BboxT, expand, min_ℤ, max_ℤ}

-- The box a lies in the box c.
pub record LiesIn (a c : BboxT) : Type 0 where
  pub south : c.minlat ≤ℤ a.minlat
  pub west : c.minlon ≤ℤ a.minlon
  pub north : a.maxlat ≤ℤ c.maxlat
  pub east : a.maxlon ≤ℤ c.maxlon

min_ℤ_iff : (z a b : ℤ) → (z ≤ℤ min_ℤ a b) ↔ ((z ≤ℤ a) × (z ≤ℤ b))
min_ℤ_iff z a b = ground arith

max_ℤ_iff : (z a b : ℤ) → (max_ℤ a b ≤ℤ z) ↔ ((a ≤ℤ z) × (b ≤ℤ z))
max_ℤ_iff z a b = ground arith

-- A box expanded by another one lies in exactly the boxes that both lie in: it is the smallest box
-- around the two.
pub expand-LiesIn : (a b c : BboxT) → LiesIn (expand a b) c ↔ (LiesIn a c × LiesIn b c)
unfolding expand
expand-LiesIn a b c = ground (
  arith,
  min_ℤ_iff c.minlat a.minlat b.minlat,
  min_ℤ_iff c.minlon a.minlon b.minlon,
  max_ℤ_iff c.maxlat a.maxlat b.maxlat,
  max_ℤ_iff c.maxlon a.maxlon b.maxlon,
)
