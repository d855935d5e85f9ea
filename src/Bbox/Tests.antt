-- ===== src/Bbox/Tests.antt =====
-- Concrete boxes.
use openstreetmap_cgimap.Prelude.{◌≡◌, refl, ◌↔◌, ℕ-Eq, String-Eq}
use openstreetmap_cgimap.Prelude.Int.{pos, negsuc, ℤ-Eq}
use openstreetmap_cgimap.Types.{ObjectType-Eq, Pair-Eq}
use openstreetmap_cgimap.Bbox.{BboxT, expand, undefined_bbox}
use openstreetmap_cgimap.Bbox.Cover.{LiesIn, expand-LiesIn}

abbrev small : BboxT
small = record { minlat = pos 1; minlon = negsuc 3; maxlat = pos 5; maxlon = pos 2 }

expand-LiesIn_example :
    LiesIn (expand undefined_bbox small) small ↔ (LiesIn undefined_bbox small × LiesIn small small)
expand-LiesIn_example = expand-LiesIn undefined_bbox small small

first_expansion : expand undefined_bbox small ≡ small
unfolding expand
first_expansion = refl
