-- ===== src/Element/Tags.antt =====
-- The tables of the tags of ways and relations, in way_updater.cpp and relation_updater.cpp.
use openstreetmap_cgimap.Prelude.{
  ℕ, String, List, [], ◌∷◌, ◌++◌, map, eqb, if◌then◌else◌, ℕ-Eq, String-Eq,
}
use openstreetmap_cgimap.Prelude.Int.{ℤ-Eq}
use openstreetmap_cgimap.Types.{ObjectType-Eq, Pair-Eq}
use openstreetmap_cgimap.Database.{ElementRow, CurrentElementTag, ElementTag}
use openstreetmap_cgimap.NodeUpdater.Tables.{mem_id}
use openstreetmap_cgimap.Element.{ItemT}

-- The rows of the tags of one item.
unfoldable pub tag_rows : ℕ → List (String × String) → List CurrentElementTag
tag_rows i [] = []
tag_rows i ((key, value) ∷ tags) = record { element_id = i; k = key; v = value } ∷ tag_rows i tags

unfoldable pub all_tag_rows : {M : Type 0} → List (ItemT M) → List CurrentElementTag
unfolding tag_rows
all_tag_rows [] = []
all_tag_rows (n ∷ ns) = tag_rows n.id n.tags ++ all_tag_rows ns

abbrev pub tag_ids : List CurrentElementTag → List ℕ
tag_ids = map (λ (t : CurrentElementTag). t.element_id)

-- `DELETE … WHERE … = ANY($1)`
unfoldable pub without_tags : List ℕ → List CurrentElementTag → List CurrentElementTag
without_tags ids [] = []
without_tags ids (t ∷ ts) =
    if mem_id t.element_id ids then without_tags ids ts else t ∷ without_tags ids ts

-- The join of a tag with the table of the elements.
unfoldable pub versions_of_tag : CurrentElementTag → List ElementRow → List ElementTag
versions_of_tag t [] = []
versions_of_tag t (r ∷ rs) =
    if eqb t.element_id r.id
    then record { element_id = t.element_id; version = r.version; k = t.k; v = t.v }
      ∷ versions_of_tag t rs
    else versions_of_tag t rs

unfoldable pub history_tags : List ℕ → List ElementRow → List CurrentElementTag → List ElementTag
unfolding versions_of_tag
history_tags ids rows [] = []
history_tags ids rows (t ∷ ts) =
    if mem_id t.element_id ids
    then versions_of_tag t rows ++ history_tags ids rows ts
    else history_tags ids rows ts
