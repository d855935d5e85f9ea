-- ===== src/WayUpdater.antt =====
-- src/backend/apidb/changeset_upload/way_updater.cpp: the buffers of created, modified and deleted
-- ways, and how they are filled.
pub mod Placeholders
pub mod Tables
pub mod Reference
pub mod Process
pub mod Serial
pub mod Integrity
pub mod Unused
mod Tests
use openstreetmap_cgimap.Prelude.{
  ℕ, zero, suc, ◌+◌, ◌-◌, ◌*◌, ◌/◌, ◌%◌, ◌^◌, ◌≤◌, ◌<◌, String, ◌≡◌, refl, sym, ap, ap₂, ◌∙◌, ◌≢◌,
  ◌↔◌, ◌⊎◌, inl, inr, Bool, true, false, not, ◌&&◌, ◌||◌, Option, none, some, List, [], ◌∷◌, ◌++◌,
  map, arith, ltb, leb, eqb, if◌then◌else◌, eqb_iff, Eq, ◌==◌, ==_refl, ℕ-Eq, String-Eq, Bool-cases,
  Option-cases, length, get_elem?, length-append, All, Any, List-cases, get_or, to_list,
  get_elem?-append, get_elem?-none, get_or-append, get_or_default,
}
use openstreetmap_cgimap.Prelude.Int.{
  ℤ, pos, negsuc, pos_part, neg_part, ◌+ℤ◌, ◌-ℤ◌, ◌*ℤ◌, ◌≤ℤ◌, ltb_ℤ, eqb_ℤ, eqb_ℤ_iff, ℤ-Eq,
  int_laws, IsInt64, to_uint64, to_int64, to_int64-to_uint64,
}
use openstreetmap_cgimap.StdMap.{
  StdMap, find, contains, insert, assign, insert_all, find-insert, find-assign, find-insert_all,
  find_first, find_first_key, is_some, find_first_iff,
}
use openstreetmap_cgimap.Types.{
  Error, bad_request, payload_error, not_found, conflict, gone, precondition_failed, server_error,
  runtime_error, assertion_failed, Result, ok, err, ◌>>=◌, ◌>>◌, guard, >>=-eq-ok, ok-injective,
  Result-cases, >>=-assoc, >>=-ok, >>=-cong, is_ok, Operation, op_undefined, op_create, op_modify,
  op_delete, ObjectType, node, way, relation, ObjectKey, EditionKey, ObjectType-Eq, Pair-Eq,
}
use openstreetmap_cgimap.Element.{ItemT}
use openstreetmap_cgimap.Bbox.{BboxT}
use openstreetmap_cgimap.Tracking.{OsmChangeTracking}
use openstreetmap_cgimap.Database.{Database}

-- struct way_node_t
pub record WayNodeT : Type 0 where
  pub node_id : ℕ
  pub sequence_id : ℕ
  pub old_node_id : ℤ

-- struct way_t, with `members` for its way_nodes
abbrev pub WayT : Type 0
WayT = ItemT WayNodeT

-- class ApiDB_Way_Updater, with the tracking object and the database that it refers to.
pub record WayUpdater : Type 0 where
  pub db : Database
  pub ct : OsmChangeTracking
  pub m_bbox : BboxT
  pub create_ways : List WayT
  pub modify_ways : List WayT
  pub delete_ways : List WayT
  pub create_placeholder_ids : StdMap ℤ (Unit {0})

-- `ct.osmchange_orig_sequence.emplace_back(…)`
abbrev pub record_change : OsmChangeTracking → Operation → WayT → Bool → OsmChangeTracking
record_change ct op w if_unused = record ct {
  osmchange_orig_sequence =
      ct.osmchange_orig_sequence
      ++ record {
        op = op;
        obj_type = way;
        orig_id = w.old_id;
        orig_version = w.version;
        if_unused = if_unused;
      }
        ∷ [];
}

-- The loop over the nodes; `node_seq` counts the ones before.
unfoldable pub way_nodes_from : ℕ → List ℤ → List WayNodeT
unfolding to_uint64
way_nodes_from node_seq [] = []
way_nodes_from node_seq (n ∷ nodes) =
    record {
      node_id = if ltb_ℤ n (pos 0) then 0 else to_uint64 n;
      sequence_id = node_seq + 1;
      old_node_id = n;
    }
    ∷ way_nodes_from (node_seq + 1) nodes

-- The assertions on the number of nodes.
unfoldable pub assert_nodes : ℕ → List ℤ → Result (Unit {0})
assert_nodes way_max_nodes nodes = do
  guard (ltb 0 (length nodes)) (assertion_failed "nodes.size() > 0")
  guard (leb (length nodes) way_max_nodes)
      (assertion_failed "nodes.size() <= global_settings::get_way_max_nodes()")

unfoldable pub add_way :
    ℕ → ℤ → ℤ → List ℤ → List (String × String) → WayUpdater → Result WayUpdater
unfolding way_nodes_from assert_nodes
add_way way_max_nodes changeset_id old_id nodes tags s =
    let new_way : WayT = record {
      id = 0;
      version = 1;
      changeset_id = changeset_id;
      old_id = old_id;
      tags = tags;
      members = way_nodes_from 0 nodes;
      if_unused = false;
    } in
    do
      guard (ltb_ℤ old_id (pos 0))
          (bad_request "Placeholder IDs must be negative for created elements.")
      assert_nodes way_max_nodes nodes
      ok (record s {
        create_ways = s.create_ways ++ new_way ∷ [];
        ct = record_change s.ct op_create new_way false;
      })

unfoldable pub modify_way :
    ℕ → ℤ → ℕ → ℕ → List ℤ → List (String × String) → WayUpdater → Result WayUpdater
unfolding way_nodes_from assert_nodes to_int64
modify_way way_max_nodes changeset_id id version nodes tags s =
    let modified : WayT = record {
      id = id;
      version = version;
      changeset_id = changeset_id;
      old_id = to_int64 id;
      tags = tags;
      members = way_nodes_from 0 nodes;
      if_unused = false;
    } in
    do
      assert_nodes way_max_nodes nodes
      ok (record s {
        modify_ways = s.modify_ways ++ modified ∷ [];
        ct = record_change s.ct op_modify modified false;
      })

unfoldable pub delete_way : ℤ → ℕ → ℕ → Bool → WayUpdater → Result WayUpdater
unfolding to_int64
delete_way changeset_id id version if_unused s =
    let deleted : WayT = record {
      id = id;
      version = version;
      changeset_id = changeset_id;
      old_id = to_int64 id;
      tags = [];
      members = [];
      if_unused = if_unused;
    } in
    ok (record s {
      delete_ways = s.delete_ways ++ deleted ∷ [];
      ct = record_change s.ct op_delete deleted if_unused;
    })

-- `get_stats`: the numbers of created, modified and deleted ways.
unfoldable pub get_stats : WayUpdater → ℕ × ℕ × ℕ
get_stats s =
    (length s.ct.created_way_ids, length s.ct.modified_way_ids, length s.ct.deleted_way_ids)
