-- ===== src/Element/Unused.antt =====
-- What is left to delete is not in use.
use openstreetmap_cgimap.NodeUpdater.Tables.{mem_id}
use openstreetmap_cgimap.Database.{ElementRow}
use openstreetmap_cgimap.Prelude.{
  ℕ, ◌≡◌, refl, inl, inr, Bool, true, false, not, ◌&&◌, ◌||◌, none, List, [], ◌∷◌, arith, ℕ-Eq,
  String-Eq,
}
use openstreetmap_cgimap.Prelude.Int.{ℤ-Eq}
use openstreetmap_cgimap.Types.{Error, ok, Result-cases, ObjectType-Eq, Pair-Eq}
use openstreetmap_cgimap.Element.{ItemT, ids_of, matching_item, update_rows, visible_ids}
use openstreetmap_cgimap.Element.Deletion.{ids_with_flag, without_ids}
use openstreetmap_cgimap.NodeUpdater.Reference.{referenced_ids, excluded_ids}

pub mem_id-referenced_ids :
    (j : ℕ) (is column : List ℕ)
    → mem_id j (referenced_ids is column) ≡ (mem_id j is && mem_id j column)
unfolding referenced_ids
mem_id-referenced_ids j [] column = refl
mem_id-referenced_ids j (i ∷ is) column = ground (arith, mem_id-referenced_ids j is column)

-- Whatever is in use has the flag if-unused, and is excluded.
pub excluded_ids-with_flag :
    (e : Error) (j : ℕ) (with_flag without_flag is : List ℕ) {excluded : List ℕ}
    → excluded_ids e with_flag without_flag is ≡ ok excluded
    → mem_id j excluded ≡ (mem_id j is && mem_id j with_flag)
unfolding excluded_ids
excluded_ids-with_flag e j with_flag without_flag [] h = ground arith
excluded_ids-with_flag e j with_flag without_flag (i ∷ is) h =
    elim (Result-cases (excluded_ids e with_flag without_flag is)) [
      | inl (ids, done) ↦ ground (arith, excluded_ids-with_flag e j with_flag without_flag is done)
      | inr (thrown, failed) ↦ ground arith
    ]

pub excluded_ids-without_flag :
    (e : Error) (j : ℕ) (with_flag without_flag is : List ℕ) {excluded : List ℕ}
    → excluded_ids e with_flag without_flag is ≡ ok excluded
    → (mem_id j is && mem_id j without_flag) ≡ false
unfolding excluded_ids
excluded_ids-without_flag e j with_flag without_flag [] h = ground arith
excluded_ids-without_flag e j with_flag without_flag (i ∷ is) h =
    elim (Result-cases (excluded_ids e with_flag without_flag is)) [
      | inl (ids, done) ↦
          ground (arith, excluded_ids-without_flag e j with_flag without_flag is done)
      | inr (thrown, failed) ↦ ground arith
    ]

module _ {M : Type 0} where
  pub mem_id-with_flag :
      (j : ℕ) (ns : List (ItemT M))
      → mem_id j (ids_of ns)
        ≡ (mem_id j (ids_with_flag true ns) || mem_id j (ids_with_flag false ns))
  unfolding ids_with_flag
  mem_id-with_flag j [] = refl
  mem_id-with_flag j (n ∷ ns) = ground (arith, mem_id-with_flag j ns)

  pub mem_id-without_ids :
      (j : ℕ) (excluded : List ℕ) (ns : List (ItemT M))
      → mem_id j (ids_of (without_ids excluded ns))
        ≡ (mem_id j (ids_of ns) && not (mem_id j excluded))
  unfolding without_ids
  mem_id-without_ids j excluded [] = refl
  mem_id-without_ids j excluded (n ∷ ns) = ground (arith, mem_id-without_ids j excluded ns)

  -- An item that is in use is not among those left.
  pub unused_left :
      (e : Error) (j : ℕ) (ns : List (ItemT M)) (ids column : List ℕ) {excluded : List ℕ}
      → mem_id j ids ≡ mem_id j (ids_of ns)
      → excluded_ids e (ids_with_flag true ns) (ids_with_flag false ns) (referenced_ids ids column)
        ≡ ok excluded
      → mem_id j column ≡ true
      → mem_id j (ids_of (without_ids excluded ns)) ≡ false
  unused_left e j ns ids column {excluded} same h used =
      let with_flag = ids_with_flag true ns in
      let without_flag = ids_with_flag false ns in
      let in_use = referenced_ids ids column in
      ground (
        arith,
        mem_id-without_ids j excluded ns,
        mem_id-with_flag j ns,
        mem_id-referenced_ids j ids column,
        excluded_ids-with_flag e j with_flag without_flag in_use h,
        excluded_ids-without_flag e j with_flag without_flag in_use h,
      )

  matching_item-none :
      (r : ElementRow) (ns : List (ItemT M))
      → mem_id r.id (ids_of ns) ≡ false
      → matching_item r ns ≡ none
  unfolding matching_item
  matching_item-none r [] h = refl
  matching_item-none r (n ∷ ns) h = ground (arith, matching_item-none r ns)

  -- Rows of other items stay visible.
  pub visible-update_rows :
      (visible : Bool) (j : ℕ) (ns : List (ItemT M)) (rs : List ElementRow)
      → (visible || not (mem_id j (ids_of ns))) ≡ true
      → mem_id j (visible_ids rs) ≡ true
      → mem_id j (visible_ids (update_rows visible ns rs)) ≡ true
  unfolding update_rows visible_ids
  visible-update_rows visible j ns [] other h = cc
  visible-update_rows visible j ns (r ∷ rs) other h =
      ground (arith, visible-update_rows visible j ns rs, matching_item-none r ns)
