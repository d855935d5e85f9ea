-- ===== src/NodeUpdater.antt =====
-- src/backend/apidb/changeset_upload/node_updater.cpp: the buffers of created, modified and
-- deleted nodes, and how they are filled.
pub mod Placeholders
pub mod Tables
pub mod Reference
pub mod Process
pub mod Resolved
pub mod Versions
pub mod Serial
pub mod Unused
pub mod Integrity
mod Tests
use openstreetmap_cgimap.QuadTile.{lat2y, lon2x, xy2tile}
use openstreetmap_cgimap.Bbox.{scale, BboxT}
use openstreetmap_cgimap.Tracking.{OsmChangeTracking}
use openstreetmap_cgimap.Database.{Database}
use openstreetmap_cgimap.Double.{DoubleOps}
use openstreetmap_cgimap.Prelude.{
  ℕ, zero, suc, ◌+◌, ◌-◌, ◌*◌, ◌/◌, ◌%◌, ◌^◌, ◌≤◌, ◌<◌, String, ◌≡◌, refl, sym, ap, ap₂, ◌∙◌, ◌≢◌,
  ◌↔◌, ◌⊎◌, inl, inr, Bool, true, false, not, ◌&&◌, ◌||◌, Option, none, some, List, [], ◌∷◌, ◌++◌,
  map, arith, ltb, leb, eqb, if◌then◌else◌, eqb_iff, Eq, ◌==◌, ==_refl, ℕ-Eq, String-Eq, Bool-cases,
  Option-cases, length, get_elem?, length-append, All, Any, List-cases, get_or, to_list,
  get_elem?-append, get_elem?-none, get_or-append, get_or_default,
}
use openstreetmap_cgimap.Prelude.Int.{
  ℤ, pos, negsuc, pos_part, neg_part, ◌+ℤ◌, ◌-ℤ◌, ◌*ℤ◌, ◌≤ℤ◌, ltb_ℤ, eqb_ℤ, eqb_ℤ_iff, ℤ-Eq,
  int_laws, IsInt64, to_uint64, to_int64, to_int64-to_uint64,
}
use openstreetmap_cgimap.StdMap.{
  StdMap, find, contains, insert, assign, insert_all, find-insert, find-assign, find-insert_all,
  find_first, find_first_key, is_some, find_first_iff,
}
use openstreetmap_cgimap.Types.{
  Error, bad_request, payload_error, not_found, conflict, gone, precondition_failed, server_error,
  runtime_error, Result, ok, err, ◌>>=◌, ◌>>◌, guard, >>=-eq-ok, ok-injective, Result-cases, is_ok,
  Operation, op_undefined, op_create, op_modify, op_delete, ObjectType, node, way, relation,
  ObjectKey, EditionKey, ObjectType-Eq, Pair-Eq,
}

-- struct node_t
pub record NodeT : Type 0 where
  pub id : ℕ
  pub version : ℕ
  pub lat : ℤ
  pub lon : ℤ
  pub tile : ℕ
  pub changeset_id : ℤ
  pub old_id : ℤ
  pub tags : List (String × String)
  pub if_unused : Bool

-- class ApiDB_Node_Updater, with the tracking object and the database that it refers to.
pub record NodeUpdater : Type 0 where
  pub db : Database
  pub ct : OsmChangeTracking
  pub m_bbox : BboxT
  pub create_nodes : List NodeT
  pub modify_nodes : List NodeT
  pub delete_nodes : List NodeT
  pub create_placeholder_ids : StdMap ℤ (Unit {0})

abbrev pub placeholder_not_negative : Error
placeholder_not_negative = bad_request "Placeholder IDs must be negative for created elements."

-- `ct.osmchange_orig_sequence.emplace_back(…)`
abbrev pub record_change : OsmChangeTracking → Operation → NodeT → Bool → OsmChangeTracking
record_change ct op n if_unused = record ct {
  osmchange_orig_sequence =
      ct.osmchange_orig_sequence
      ++ record {
        op = op;
        obj_type = node;
        orig_id = n.old_id;
        orig_version = n.version;
        if_unused = if_unused;
      }
        ∷ [];
}

module _ {D : Type 0} (f : DoubleOps D) where
  -- `static_cast<int64_t>(round(x * get_scale()))`
  abbrev pub scaled : D → ℤ
  scaled x = f.round (f.mul x (f.lit (pos scale)))

  unfoldable pub add_node :
      D → D → ℤ → ℤ → List (String × String) → NodeUpdater → Result NodeUpdater
  unfolding xy2tile lon2x lat2y
  add_node lat lon changeset_id old_id tags s =
      let new_node : NodeT = record {
        id = 0;
        version = 1;
        lat = scaled lat;
        lon = scaled lon;
        tile = xy2tile (lon2x f lon) (lat2y f lat);
        changeset_id = changeset_id;
        old_id = old_id;
        tags = tags;
        if_unused = false;
      } in
      if ltb_ℤ old_id (pos 0)
      then ok (record s {
        create_nodes = s.create_nodes ++ new_node ∷ [];
        ct = record_change s.ct op_create new_node false;
      })
      else err placeholder_not_negative

  unfoldable pub modify_node :
      D → D → ℤ → ℕ → ℕ → List (String × String) → NodeUpdater → Result NodeUpdater
  unfolding xy2tile lon2x lat2y to_int64
  modify_node lat lon changeset_id id version tags s =
      let modified : NodeT = record {
        id = id;
        version = version;
        lat = scaled lat;
        lon = scaled lon;
        tile = xy2tile (lon2x f lon) (lat2y f lat);
        changeset_id = changeset_id;
        old_id = to_int64 id;
        tags = tags;
        if_unused = false;
      } in
      ok (record s {
        modify_nodes = s.modify_nodes ++ modified ∷ [];
        ct = record_change s.ct op_modify modified false;
      })

unfoldable pub delete_node : ℤ → ℕ → ℕ → Bool → NodeUpdater → Result NodeUpdater
unfolding to_int64
delete_node changeset_id id version if_unused s =
    let deleted : NodeT = record {
      id = id;
      version = version;
      lat = pos 0;
      lon = pos 0;
      tile = 0;
      changeset_id = changeset_id;
      old_id = to_int64 id;
      tags = [];
      if_unused = if_unused;
    } in
    ok (record s {
      delete_nodes = s.delete_nodes ++ deleted ∷ [];
      ct = record_change s.ct op_delete deleted if_unused;
    })
