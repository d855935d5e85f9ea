-- ===== src/Handler.antt =====
-- src/api06/changeset_upload/osmchange_handler.cpp: the objects of an upload are collected in the
-- buffers of the updaters; a change of the kind of operation has them processed.
pub mod Changes
pub mod Batches
pub mod Kept
mod Tests
use openstreetmap_cgimap.Prelude.{
  ℕ, zero, suc, ◌+◌, ◌-◌, ◌*◌, ◌/◌, ◌%◌, ◌^◌, ◌≤◌, ◌<◌, String, ◌≡◌, refl, sym, ap, ap₂, ◌∙◌, ◌≢◌,
  ◌↔◌, ◌⊎◌, inl, inr, Bool, true, false, not, ◌&&◌, ◌||◌, Option, none, some, List, [], ◌∷◌, ◌++◌,
  map, arith, ltb, leb, eqb, if◌then◌else◌, eqb_iff, Eq, ◌==◌, ==_refl, ℕ-Eq, String-Eq, Bool-cases,
  Option-cases, length, get_elem?, length-append, All, Any, List-cases, get_or, to_list,
  get_elem?-append, get_elem?-none, get_or-append, get_or_default,
}
use openstreetmap_cgimap.Prelude.Int.{
  ℤ, pos, negsuc, pos_part, neg_part, ◌+ℤ◌, ◌-ℤ◌, ◌*ℤ◌, ◌≤ℤ◌, ltb_ℤ, eqb_ℤ, eqb_ℤ_iff, ℤ-Eq,
  int_laws, IsInt64, to_uint64, to_int64, to_int64-to_uint64,
}
use openstreetmap_cgimap.StdMap.{
  StdMap, find, contains, insert, assign, insert_all, find-insert, find-assign, find-insert_all,
  find_first, find_first_key, is_some, find_first_iff,
}
use openstreetmap_cgimap.Types.{
  Error, bad_request, payload_error, not_found, conflict, gone, precondition_failed, server_error,
  runtime_error, assertion_failed, Result, ok, err, ◌>>=◌, ◌>>◌, guard, >>=-eq-ok, ok-injective,
  Result-cases, is_ok, Operation, op_undefined, op_create, op_modify, op_delete, ObjectType, node,
  way, relation, ObjectKey, EditionKey, ObjectType-Eq, Pair-Eq,
}
use openstreetmap_cgimap.Bbox.{BboxT, undefined_bbox, expand}
use openstreetmap_cgimap.OsmObject.{Limits, OsmObject}
use openstreetmap_cgimap.OsmObject.Node.{Node}
use openstreetmap_cgimap.OsmObject.Way.{Way}
use openstreetmap_cgimap.OsmObject.Relation.{Relation, RelationMember}

-- What the handler needs of the classes Node_Updater, Way_Updater and Relation_Updater. They write
-- to one transaction and one tracking object, so they act on one state.
pub record Updaters (D S : Type 0) : Type 0 where
  pub add_node : D → D → ℤ → ℤ → List (String × String) → S → Result S
  pub modify_node : D → D → ℤ → ℕ → ℕ → List (String × String) → S → Result S
  pub delete_node : ℤ → ℕ → ℕ → Bool → S → Result S
  pub process_new_nodes : S → Result S
  pub process_modify_nodes : S → Result S
  pub process_delete_nodes : S → Result S
  pub add_way : ℤ → ℤ → List ℤ → List (String × String) → S → Result S
  pub modify_way : ℤ → ℕ → ℕ → List ℤ → List (String × String) → S → Result S
  pub delete_way : ℤ → ℕ → ℕ → Bool → S → Result S
  pub process_new_ways : S → Result S
  pub process_modify_ways : S → Result S
  pub process_delete_ways : S → Result S
  pub add_relation : ℤ → ℤ → List RelationMember → List (String × String) → S → Result S
  pub modify_relation : ℤ → ℕ → ℕ → List RelationMember → List (String × String) → S → Result S
  pub delete_relation : ℤ → ℕ → ℕ → Bool → S → Result S
  pub process_new_relations : S → Result S
  pub process_modify_relations : S → Result S
  pub process_delete_relations : S → Result S
  pub node_bbox : S → BboxT
  pub way_bbox : S → BboxT
  pub relation_bbox : S → BboxT

-- enum class OSMChange_Handler::state
pub data HandlerState : Type 0 where
  st_initial st_create_node st_create_way st_create_relation st_modify : HandlerState
  st_delete_relation st_delete_way st_delete_node st_finished : HandlerState

abbrev pub state_beq : HandlerState → HandlerState → Bool
state_beq st_initial st_initial = true
state_beq st_create_node st_create_node = true
state_beq st_create_way st_create_way = true
state_beq st_create_relation st_create_relation = true
state_beq st_modify st_modify = true
state_beq st_delete_relation st_delete_relation = true
state_beq st_delete_way st_delete_way = true
state_beq st_delete_node st_delete_node = true
state_beq st_finished st_finished = true
state_beq _ _ = false

pub state_beq_iff : (a b : HandlerState) → (state_beq a b ≡ true) ↔ (a ≡ b)
state_beq_iff a b = ground arith

-- `*o` of an optional
abbrev pub value {ℓ} : {A : Type ℓ} → Option A → Result A
value none = err (assertion_failed "has_value()")
value (some a) = ok a

-- class OSMChange_Handler, with the state of its updaters
pub record Handler (S : Type 0) : Type 0 where
  pub current_state : HandlerState
  pub updaters : S

module _ {D S : Type 0} (u : Updaters D S) where
  -- The switch of `handle_new_state`: process the objects in the buffers of a state.
  unfoldable pub process_buffers : HandlerState → S → Result S
  process_buffers st_initial s = ok s
  process_buffers st_create_node s = u.process_new_nodes s
  process_buffers st_create_way s = u.process_new_ways s
  process_buffers st_create_relation s = u.process_new_relations s
  process_buffers st_modify s =
      u.process_modify_nodes s >>= u.process_modify_ways >>= u.process_modify_relations
  process_buffers st_delete_node s = u.process_delete_nodes s
  process_buffers st_delete_way s = u.process_delete_ways s
  process_buffers st_delete_relation s = u.process_delete_relations s
  process_buffers st_finished s = ok s

  unfoldable pub handle_new_state : HandlerState → Handler S → Result (Handler S)
  unfolding process_buffers
  handle_new_state new_state h =
      if state_beq new_state h.current_state
      then ok h
      else (process_buffers h.current_state h.updaters >>= λ s.
          ok (record { current_state = new_state; updaters = s }))

  -- A call of an updater.
  abbrev pub with_updaters : (S → Result S) → Handler S → Result (Handler S)
  with_updaters f h = f h.updaters >>= λ s. ok (record h { updaters = s })

  unfoldable pub check_osm_object : ℤ → OsmObject → Result (Unit {0})
  check_osm_object changeset o = do
    provided ← value o.m_changeset
    guard (provided == changeset)
        (conflict "Changeset mismatch: Provided {:d} but only {:d} is allowed")

  unfoldable pub process_node : ℤ → Node D → Operation → Bool → Handler S → Result (Handler S)
  unfolding check_osm_object handle_new_state to_uint64
  process_node changeset n op_create if_unused h = do
    check_osm_object changeset n.base
    h' ← handle_new_state st_create_node h
    lat ← value n.m_lat
    lon ← value n.m_lon
    id ← value n.base.m_id
    with_updaters (u.add_node lat lon changeset id n.base.m_tags) h'
  process_node changeset n op_modify if_unused h = do
    check_osm_object changeset n.base
    h' ← handle_new_state st_modify h
    lat ← value n.m_lat
    lon ← value n.m_lon
    id ← value n.base.m_id
    version ← value n.base.m_version
    with_updaters (u.modify_node lat lon changeset (to_uint64 id) version n.base.m_tags) h'
  process_node changeset n op_delete if_unused h = do
    check_osm_object changeset n.base
    h' ← handle_new_state st_delete_node h
    id ← value n.base.m_id
    version ← value n.base.m_version
    with_updaters (u.delete_node changeset (to_uint64 id) version if_unused) h'
  process_node changeset n op_undefined if_unused h = err (assertion_failed "op != op_undefined")

  unfoldable pub process_way : ℤ → Way → Operation → Bool → Handler S → Result (Handler S)
  unfolding check_osm_object handle_new_state to_uint64
  process_way changeset w op_create if_unused h = do
    check_osm_object changeset w.base
    h' ← handle_new_state st_create_way h
    id ← value w.base.m_id
    with_updaters (u.add_way changeset id w.m_way_nodes w.base.m_tags) h'
  process_way changeset w op_modify if_unused h = do
    check_osm_object changeset w.base
    h' ← handle_new_state st_modify h
    id ← value w.base.m_id
    version ← value w.base.m_version
    with_updaters (u.modify_way changeset (to_uint64 id) version w.m_way_nodes w.base.m_tags) h'
  process_way changeset w op_delete if_unused h = do
    check_osm_object changeset w.base
    h' ← handle_new_state st_delete_way h
    id ← value w.base.m_id
    version ← value w.base.m_version
    with_updaters (u.delete_way changeset (to_uint64 id) version if_unused) h'
  process_way changeset w op_undefined if_unused h = err (assertion_failed "op != op_undefined")

  unfoldable pub process_relation : ℤ → Relation → Operation → Bool → Handler S → Result (Handler S)
  unfolding check_osm_object handle_new_state to_uint64
  process_relation changeset r op_create if_unused h = do
    check_osm_object changeset r.base
    h' ← handle_new_state st_create_relation h
    id ← value r.base.m_id
    with_updaters (u.add_relation changeset id r.m_relation_member r.base.m_tags) h'
  process_relation changeset r op_modify if_unused h = do
    check_osm_object changeset r.base
    h' ← handle_new_state st_modify h
    id ← value r.base.m_id
    version ← value r.base.m_version
    with_updaters
        (u.modify_relation changeset (to_uint64 id) version r.m_relation_member r.base.m_tags) h'
  process_relation changeset r op_delete if_unused h = do
    check_osm_object changeset r.base
    h' ← handle_new_state st_delete_relation h
    id ← value r.base.m_id
    version ← value r.base.m_version
    with_updaters (u.delete_relation changeset (to_uint64 id) version if_unused) h'
  process_relation changeset r op_undefined if_unused h =
      err (assertion_failed "op != op_undefined")

  unfoldable pub finish_processing : Handler S → Result (Handler S)
  unfolding handle_new_state
  finish_processing h = handle_new_state st_finished h

  unfoldable pub start_document : Handler S → Result (Handler S)
  start_document h = ok h

  unfoldable pub end_document : Handler S → Result (Handler S)
  unfolding finish_processing
  end_document h = finish_processing h

  unfoldable pub get_bbox : Handler S → BboxT
  unfolding expand
  get_bbox h =
      expand (expand (expand undefined_bbox (u.node_bbox h.updaters)) (u.way_bbox h.updaters))
        (u.relation_bbox h.updaters)
