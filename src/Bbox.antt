-- ===== src/Bbox.antt =====
-- `bbox_t` of include/cgimap/util.hpp: a bounding box in scaled integer coordinates.
pub mod Cover
mod Tests
use openstreetmap_cgimap.Prelude.{ℕ, ◌-◌, ◌*◌, Bool, ◌&&◌, if◌then◌else◌, ◌==◌, ℕ-Eq, String-Eq}
use openstreetmap_cgimap.Prelude.Int.{ℤ, pos, negsuc, ◌+ℤ◌, ◌-ℤ◌, ltb_ℤ, ℤ-Eq}
use openstreetmap_cgimap.Types.{ObjectType-Eq, Pair-Eq}

pub record BboxT : Type 0 where
  pub minlat : ℤ
  pub minlon : ℤ
  pub maxlat : ℤ
  pub maxlon : ℤ

-- `get_scale()` of the default settings
abbrev pub scale : ℕ
scale = 10000000

-- `bbox_t()`: outside of the valid range, and the wrong way round.
abbrev pub undefined_bbox : BboxT
undefined_bbox = record {
  minlat = pos (200 * scale);
  minlon = pos (200 * scale);
  maxlat = negsuc (200 * scale - 1);
  maxlon = negsuc (200 * scale - 1);
}

abbrev pub min_ℤ : ℤ → ℤ → ℤ
min_ℤ a b = if ltb_ℤ b a then b else a

abbrev pub max_ℤ : ℤ → ℤ → ℤ
max_ℤ a b = if ltb_ℤ a b then b else a

unfoldable pub expand : BboxT → BboxT → BboxT
expand a b = record {
  minlat = min_ℤ a.minlat b.minlat;
  minlon = min_ℤ a.minlon b.minlon;
  maxlat = max_ℤ a.maxlat b.maxlat;
  maxlon = max_ℤ a.maxlon b.maxlon;
}

abbrev pub bbox_beq : BboxT → BboxT → Bool
bbox_beq a b =
    a.minlat == b.minlat && a.minlon == b.minlon && a.maxlat == b.maxlat && a.maxlon == b.maxlon

unfoldable pub linear_size : BboxT → ℤ
unfolding ◌+ℤ◌ ◌-ℤ◌
linear_size b = (b.maxlon -ℤ b.minlon) +ℤ (b.maxlat -ℤ b.minlat)
