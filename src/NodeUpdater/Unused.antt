-- ===== src/NodeUpdater/Unused.antt =====
-- Nodes that ways or relations use stay visible.
use openstreetmap_cgimap.Prelude.{
  ℕ, ◌≡◌, refl, true, false, not, ◌&&◌, ◌||◌, none, List, [], ◌∷◌, ◌++◌, map, arith, ℕ-Eq,
  String-Eq,
}
use openstreetmap_cgimap.Prelude.Int.{ℤ-Eq}
use openstreetmap_cgimap.Types.{ok, >>=-eq-ok, ObjectType-Eq, Pair-Eq}
use openstreetmap_cgimap.NodeUpdater.Tables.{
  unique_ids, mem_id, update_rows, matching_node, set_modified, set_deleted, ids_of,
}
use openstreetmap_cgimap.NodeUpdater.Reference.{
  ids_with_flag, without_ids, referenced_ids, excluded_ids, is_node_still_referenced, used_by_ways,
  used_by_relations,
}
use openstreetmap_cgimap.Element.Found.{mem_id-unique_ids, mem_id-append}
use openstreetmap_cgimap.Element.Unused.{
  mem_id-referenced_ids, excluded_ids-with_flag, excluded_ids-without_flag,
}
use openstreetmap_cgimap.WayUpdater.Tables.{visible_node_ids}
use openstreetmap_cgimap.NodeUpdater.{NodeT, NodeUpdater}
use openstreetmap_cgimap.Database.{Database, NodeRow, CurrentWayNode, member_ids}

mem_id-with_flag :
    (j : ℕ) (ns : List NodeT)
    → mem_id j (ids_of ns) ≡ (mem_id j (ids_with_flag true ns) || mem_id j (ids_with_flag false ns))
unfolding ids_with_flag
mem_id-with_flag j [] = refl
mem_id-with_flag j (n ∷ ns) = ground (arith, mem_id-with_flag j ns)

mem_id-without_ids :
    (j : ℕ) (excluded : List ℕ) (ns : List NodeT)
    → mem_id j (ids_of (without_ids excluded ns))
      ≡ (mem_id j (ids_of ns) && not (mem_id j excluded))
unfolding without_ids
mem_id-without_ids j excluded [] = refl
mem_id-without_ids j excluded (n ∷ ns) = ground (arith, mem_id-without_ids j excluded ns)

matching_node-none :
    (r : NodeRow) (ns : List NodeT) → mem_id r.id (ids_of ns) ≡ false → matching_node r ns ≡ none
unfolding matching_node
matching_node-none r [] h = refl
matching_node-none r (n ∷ ns) h = ground (arith, matching_node-none r ns)

pub visible-set_deleted :
    (j : ℕ) (ns : List NodeT) (rs : List NodeRow)
    → mem_id j (ids_of ns) ≡ false
    → mem_id j (visible_node_ids rs) ≡ true
    → mem_id j (visible_node_ids (update_rows set_deleted ns rs)) ≡ true
unfolding update_rows visible_node_ids
visible-set_deleted j ns [] other h = cc
visible-set_deleted j ns (r ∷ rs) other h =
    ground (arith, visible-set_deleted j ns rs, matching_node-none r ns)

pub visible-set_modified :
    (j : ℕ) (ns : List NodeT) (rs : List NodeRow)
    → mem_id j (visible_node_ids rs) ≡ true
    → mem_id j (visible_node_ids (update_rows set_modified ns rs)) ≡ true
unfolding update_rows visible_node_ids
visible-set_modified j ns [] h = cc
visible-set_modified j ns (r ∷ rs) h = ground (arith, visible-set_modified j ns rs)

pub visible-append :
    (j : ℕ) (rs qs : List NodeRow)
    → mem_id j (visible_node_ids rs) ≡ true
    → mem_id j (visible_node_ids (rs ++ qs)) ≡ true
unfolding visible_node_ids
visible-append j [] qs h = cc
visible-append j (r ∷ rs) qs h = ground (arith, visible-append j rs qs)

-- The ids that ways and relations refer to.
abbrev pub used_node_ids : Database → List ℕ
used_node_ids db =
    map (λ (w : CurrentWayNode). w.node_id) db.current_way_nodes
    ++ member_ids "Node" db.current_relation_members

pub is_node_still_referenced-db :
    (nodes : List NodeT) (s s' : NodeUpdater) (nodes' : List NodeT)
    → is_node_still_referenced nodes s ≡ ok (s', nodes')
    → s'.db ≡ s.db
unfolding is_node_still_referenced
is_node_still_referenced-db nodes s s' nodes' h = ground arith

-- A node that is in use is not among those left to delete.
pub is_node_still_referenced-unused :
    (j : ℕ) (nodes : List NodeT) (s s' : NodeUpdater) (nodes' : List NodeT)
    → is_node_still_referenced nodes s ≡ ok (s', nodes')
    → mem_id j (used_node_ids s.db) ≡ true
    → mem_id j (ids_of nodes') ≡ false
unfolding is_node_still_referenced
is_node_still_referenced-unused j nodes s s' nodes' h used =
    let ids = unique_ids (ids_of nodes) in
    let with_flag = ids_with_flag true nodes in
    let without_flag = ids_with_flag false nodes in
    let way_column = map (λ (w : CurrentWayNode). w.node_id) s.db.current_way_nodes in
    let member_column = member_ids "Node" s.db.current_relation_members in
    let (by_ways, e1, h1) =
      >>=-eq-ok (excluded_ids used_by_ways with_flag without_flag (referenced_ids ids way_column)) _
        h in
    let (by_relations, e2, h2) =
      >>=-eq-ok
        (excluded_ids used_by_relations with_flag without_flag (referenced_ids ids member_column)) _
        h1 in
    let excluded = unique_ids (by_ways ++ by_relations) in
    let left : nodes' ≡ without_ids excluded nodes = ground arith in
    rw left (
      ground (
        arith,
        mem_id-without_ids j excluded nodes,
        mem_id-with_flag j nodes,
        mem_id-unique_ids j (ids_of nodes),
        mem_id-unique_ids j (by_ways ++ by_relations),
        mem_id-append j by_ways by_relations,
        mem_id-append j way_column member_column,
        mem_id-referenced_ids j ids way_column,
        mem_id-referenced_ids j ids member_column,
        excluded_ids-with_flag _ j with_flag without_flag (referenced_ids ids way_column) e1,
        excluded_ids-without_flag _ j with_flag without_flag (referenced_ids ids way_column) e1,
        excluded_ids-with_flag _ j with_flag without_flag (referenced_ids ids member_column) e2,
        excluded_ids-without_flag _ j with_flag without_flag (referenced_ids ids member_column) e2,
      ))
