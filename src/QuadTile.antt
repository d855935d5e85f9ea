-- ===== src/QuadTile.antt =====
-- include/cgimap/backend/apidb/quad_tile.hpp: the number of the tile that a point lies in.
use openstreetmap_cgimap.Prelude.{ℕ, zero, suc, ◌+◌, ◌*◌, ◌/◌, ◌%◌, ◌^◌, ℕ-Eq, String-Eq}
use openstreetmap_cgimap.Prelude.Int.{pos, ℤ-Eq, to_uint64}
use openstreetmap_cgimap.Types.{ObjectType-Eq, Pair-Eq}
use openstreetmap_cgimap.Double.{DoubleOps}

-- The loop over the bits i - 1, …, 0. The bit that `|` sets is zero after the shift, so it is added.
pub xy2tile_from : ℕ → ℕ → ℕ → ℕ → ℕ
xy2tile_from zero tile x y = tile
xy2tile_from (suc i) tile x y =
    let tile' = (tile * 2) % 2 ^ 32 + (x / 2 ^ i) % 2 in
    xy2tile_from i ((tile' * 2) % 2 ^ 32 + (y / 2 ^ i) % 2) x y

unfoldable pub xy2tile : ℕ → ℕ → ℕ
unfolding xy2tile_from
xy2tile x y = xy2tile_from 16 0 x y

module _ {D : Type 0} (f : DoubleOps D) where
  unfoldable pub lon2x : D → ℕ
  unfolding to_uint64
  lon2x lon =
      to_uint64 (
        f.round (f.div (f.mul (f.add lon (f.lit (pos 180))) (f.lit (pos 65535))) (f.lit (pos 360))))
      % 2 ^ 32

  unfoldable pub lat2y : D → ℕ
  unfolding to_uint64
  lat2y lat =
      to_uint64
        (f.round (f.div (f.mul (f.add lat (f.lit (pos 90))) (f.lit (pos 65535))) (f.lit (pos 180))))
      % 2 ^ 32
