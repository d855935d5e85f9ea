-- ===== src/RelationUpdater/Changes.antt =====
-- relation_updater.cpp: the changes of relations that count for the bounding box.
use openstreetmap_cgimap.Prelude.{
  ℕ, String, Bool, true, false, not, ◌&&◌, ◌||◌, none, some, List, [], ◌∷◌, ◌++◌, map, eqb,
  if◌then◌else◌, ◌==◌, ℕ-Eq, String-Eq,
}
use openstreetmap_cgimap.Prelude.Int.{ℤ-Eq}
use openstreetmap_cgimap.Types.{ObjectType-Eq, Pair-Eq}
use openstreetmap_cgimap.Element.{rows_of_ids, row_ids}
use openstreetmap_cgimap.Element.Tags.{all_tag_rows, tag_ids}
use openstreetmap_cgimap.NodeUpdater.Tables.{mem_id, unique_ids, rows_with_ids}
use openstreetmap_cgimap.NodeUpdater.Reference.{rows_bbox}
use openstreetmap_cgimap.WayUpdater.Tables.{nodes_of_ways}
use openstreetmap_cgimap.Bbox.{BboxT, undefined_bbox, expand}
use openstreetmap_cgimap.RelationUpdater.{RelationT, RelationUpdater}
use openstreetmap_cgimap.RelationUpdater.Members.{all_member_rows}
use openstreetmap_cgimap.Database.{CurrentMember, CurrentElementTag, NodeRow}

-- Equal in relation_id, member_type and member_id.
abbrev pub same_member : CurrentMember → CurrentMember → Bool
same_member a b =
    eqb a.relation_id b.relation_id && a.member_type == b.member_type && eqb a.member_id b.member_id

unfoldable pub has_member : CurrentMember → List CurrentMember → Bool
has_member a [] = false
has_member a (b ∷ bs) = same_member a b || has_member a bs

-- The rows of the first list with no partner in the second one: a `LEFT OUTER JOIN` where the
-- partner is NULL.
unfoldable pub members_without_partner :
    List CurrentMember → List CurrentMember → List CurrentMember
unfolding has_member
members_without_partner [] bs = []
members_without_partner (a ∷ more) bs =
    let rest = members_without_partner more bs in if has_member a bs then rest else a ∷ rest

unfoldable pub members_of_type : String → List CurrentMember → List CurrentMember
members_of_type type [] = []
members_of_type type (a ∷ more) =
    let rest = members_of_type type more in if a.member_type == type then a ∷ rest else rest

abbrev pub relation_ids : List CurrentMember → List ℕ
relation_ids = map (λ (a : CurrentMember). a.relation_id)

unfoldable pub relations_with_new_relation_members : List RelationT → RelationUpdater → List ℕ
unfolding all_member_rows members_of_type members_without_partner unique_ids
relations_with_new_relation_members relations s = unique_ids (
    relation_ids (
      members_without_partner (members_of_type "Relation" (all_member_rows relations))
        s.db.current_relation_members))

abbrev pub same_tag : CurrentElementTag → CurrentElementTag → Bool
same_tag a b = eqb a.element_id b.element_id && a.k == b.k && a.v == b.v

unfoldable pub has_tag : CurrentElementTag → List CurrentElementTag → Bool
has_tag a [] = false
has_tag a (b ∷ bs) = same_tag a b || has_tag a bs

unfoldable pub tags_without_partner :
    List CurrentElementTag → List CurrentElementTag → List CurrentElementTag
unfolding has_tag
tags_without_partner [] bs = []
tags_without_partner (a ∷ more) bs =
    let rest = tags_without_partner more bs in if has_tag a bs then rest else a ∷ rest

-- `INNER JOIN tmp_relation_tags t1 ON c.relation_id = t1.relation_id`
unfoldable pub tags_of_elements : List ℕ → List CurrentElementTag → List CurrentElementTag
tags_of_elements ids [] = []
tags_of_elements ids (t ∷ ts) =
    if mem_id t.element_id ids then t ∷ tags_of_elements ids ts else tags_of_elements ids ts

unfoldable pub relations_with_changed_relation_tags : List RelationT → RelationUpdater → List ℕ
unfolding all_tag_rows tags_without_partner tags_of_elements unique_ids
relations_with_changed_relation_tags relations s =
    let tmp_relation_tags = all_tag_rows relations in
    let added = tags_without_partner tmp_relation_tags s.db.current_relation_tags in
    let removed =
      tags_without_partner (tags_of_elements (tag_ids tmp_relation_tags) s.db.current_relation_tags)
        tmp_relation_tags in
    unique_ids (tag_ids added ++ tag_ids removed)

-- struct rel_member_difference_t
pub record RelMemberDifferenceT : Type 0 where
  pub member_type : String
  pub member_id : ℕ
  pub new_member : Bool

abbrev pub differences : Bool → List CurrentMember → List RelMemberDifferenceT
differences new_member = map (λ (a : CurrentMember). record {
  member_type = a.member_type;
  member_id = a.member_id;
  new_member = new_member;
})

-- The members with the type Node or Way.
unfoldable pub way_node_members : List CurrentMember → List CurrentMember
way_node_members [] = []
way_node_members (a ∷ more) =
    let rest = way_node_members more in
    if a.member_type == "Node" || a.member_type == "Way" then a ∷ rest else rest

-- `WHERE relation_id IN (…)`
unfoldable pub members_of_relations : List ℕ → List CurrentMember → List CurrentMember
members_of_relations ids [] = []
members_of_relations ids (a ∷ more) =
    let rest = members_of_relations ids more in if mem_id a.relation_id ids then a ∷ rest else rest

unfoldable pub relations_with_changed_way_node_members :
    List RelationT → RelationUpdater → List RelMemberDifferenceT
unfolding all_member_rows way_node_members members_without_partner members_of_relations
relations_with_changed_way_node_members relations s =
    let tmp_member = way_node_members (all_member_rows relations) in
    let current = s.db.current_relation_members in
    differences true (members_without_partner tmp_member current)
    ++ differences false (
        members_without_partner (members_of_relations (relation_ids tmp_member) current) tmp_member)

-- The ids of the differences of a kind, for a type of member.
unfoldable pub difference_ids : Bool → String → List RelMemberDifferenceT → List ℕ
difference_ids new_elements type [] = []
difference_ids new_elements type (d ∷ ds) =
    let rest = difference_ids new_elements type ds in
    if (if new_elements then d.new_member else not d.new_member) && d.member_type == type
    then d.member_id ∷ rest
    else rest

-- `extract_bbox_from_row`, for the only row of `MIN` and `MAX`; it is NULL for no rows.
unfoldable pub box_of_rows : List NodeRow → BboxT
unfolding rows_bbox
box_of_rows rows = elim (rows_bbox rows) [ none ↦ undefined_bbox | some b ↦ b ]

-- `MIN` and `MAX` over the nodes of ways.
unfoldable pub box_of_ways : List ℕ → RelationUpdater → BboxT
unfolding box_of_rows nodes_of_ways rows_of_ids rows_with_ids
box_of_ways way_ids s = box_of_rows (
    rows_with_ids
      (nodes_of_ways (row_ids (rows_of_ids way_ids s.db.current_ways)) s.db.current_way_nodes)
      s.db.current_nodes)

unfoldable pub calc_rel_member_difference_bbox :
    List RelMemberDifferenceT → Bool → RelationUpdater → BboxT
unfolding difference_ids box_of_rows box_of_ways rows_with_ids expand
calc_rel_member_difference_bbox diff process_new_elements s =
    let node_ids = difference_ids process_new_elements "Node" diff in
    let way_ids = difference_ids process_new_elements "Way" diff in
    expand (expand undefined_bbox (box_of_rows (rows_with_ids node_ids s.db.current_nodes)))
      (box_of_ways way_ids s)

-- The ids of the members with a type, of the relations with the ids of a list.
unfoldable pub member_ids_of : String → List ℕ → List CurrentMember → List ℕ
member_ids_of type ids [] = []
member_ids_of type ids (a ∷ more) =
    let rest = member_ids_of type ids more in
    if a.member_type == type && mem_id a.relation_id ids then a.member_id ∷ rest else rest

unfoldable pub calc_relation_bbox : List ℕ → RelationUpdater → BboxT
unfolding member_ids_of box_of_rows box_of_ways rows_with_ids expand
calc_relation_bbox ids s =
    let members = s.db.current_relation_members in
    expand (box_of_rows (rows_with_ids (member_ids_of "Node" ids members) s.db.current_nodes))
      (box_of_ways (member_ids_of "Way" ids members) s)
