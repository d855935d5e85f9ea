-- ===== src/Handler/Changes.antt =====
-- The objects of an upload as src/api06/changeset_upload/osmchange_handler.cpp is given them, and
-- their groups.
use openstreetmap_cgimap.Prelude.{
  ◌≡◌, ◌≢◌, Bool, some, List, [], ◌∷◌, arith, if◌then◌else◌, ==_refl, ℕ-Eq, String-Eq,
}
use openstreetmap_cgimap.Prelude.Int.{ℤ, ℤ-Eq, to_uint64}
use openstreetmap_cgimap.Types.{
  Result, ok, ◌>>=◌, Operation, op_undefined, op_create, op_modify, op_delete, ObjectType-Eq,
  Pair-Eq,
}
use openstreetmap_cgimap.OsmObject.{OsmObject}
use openstreetmap_cgimap.OsmObject.Node.{Node}
use openstreetmap_cgimap.OsmObject.Way.{Way}
use openstreetmap_cgimap.OsmObject.Relation.{Relation}
use openstreetmap_cgimap.Handler.{
  Updaters, HandlerState, st_initial, st_create_node, st_create_way, st_create_relation, st_modify,
  st_delete_relation, st_delete_way, st_delete_node, state_beq, value, Handler, handle_new_state,
  with_updaters, check_osm_object, process_node, process_way, process_relation,
}

-- An object of an upload, as the parser passes it on.
pub data Object (D : Type 0) : Type 0 where
  a_node : Node D → Object D
  a_way : Way → Object D
  a_relation : Relation → Object D

pub record Change (D : Type 0) : Type 0 where
  pub object : Object D
  pub op : Operation
  pub if_unused : Bool

abbrev pub base_of : {D : Type 0} → Object D → OsmObject
base_of (a_node n) = n.base
base_of (a_way w) = w.base
base_of (a_relation r) = r.base

-- The kind of operation of a change: all modifications are one kind.
abbrev pub kind_of_object : {D : Type 0} → Object D → Operation → HandlerState
kind_of_object o op_undefined = st_initial
kind_of_object o op_modify = st_modify
kind_of_object (a_node n) op_create = st_create_node
kind_of_object (a_node n) op_delete = st_delete_node
kind_of_object (a_way w) op_create = st_create_way
kind_of_object (a_way w) op_delete = st_delete_way
kind_of_object (a_relation r) op_create = st_create_relation
kind_of_object (a_relation r) op_delete = st_delete_relation

abbrev pub kind_of : {D : Type 0} → Change D → HandlerState
kind_of c = kind_of_object c.object c.op

-- Neighbouring changes of one kind form a group.
abbrev pub put :
    {D : Type 0}
    → Change D
    → List (HandlerState × List (Change D))
    → List (HandlerState × List (Change D))
put c [] = (kind_of c, c ∷ []) ∷ []
put c ((k, g) ∷ gs) =
    if state_beq (kind_of c) k then (k, c ∷ g) ∷ gs else (kind_of c, c ∷ []) ∷ (k, g) ∷ gs

unfoldable pub groups : {D : Type 0} → List (Change D) → List (HandlerState × List (Change D))
groups [] = []
groups (c ∷ cs) = put c (groups cs)

-- A change that the changeset admits: its operation is known, and it names this changeset.
abbrev pub IsAdmitted : {D : Type 0} → ℤ → Change D → Type 0
IsAdmitted changeset c = (c.op ≢ op_undefined) × ((base_of c.object).m_changeset ≡ some changeset)

module _ {D S : Type 0} (u : Updaters D S) (changeset : ℤ) where
  -- What the parser's callback is given, one change after the other.
  abbrev pub process_object : Object D → Operation → Bool → Handler S → Result (Handler S)
  process_object (a_node n) op if_unused h = process_node u changeset n op if_unused h
  process_object (a_way w) op if_unused h = process_way u changeset w op if_unused h
  process_object (a_relation r) op if_unused h = process_relation u changeset r op if_unused h

  unfoldable pub process_all : List (Change D) → Handler S → Result (Handler S)
  process_all [] h = ok h
  process_all (c ∷ cs) h = process_object c.object c.op c.if_unused h >>= process_all cs

  -- The updater's call for one change.
  unfoldable pub put_in_buffer : Object D → Operation → Bool → S → Result S
  unfolding to_uint64
  put_in_buffer o op_undefined if_unused s = ok s
  put_in_buffer (a_node n) op_create if_unused s = do
    lat ← value n.m_lat
    lon ← value n.m_lon
    id ← value n.base.m_id
    u.add_node lat lon changeset id n.base.m_tags s
  put_in_buffer (a_node n) op_modify if_unused s = do
    lat ← value n.m_lat
    lon ← value n.m_lon
    id ← value n.base.m_id
    version ← value n.base.m_version
    u.modify_node lat lon changeset (to_uint64 id) version n.base.m_tags s
  put_in_buffer (a_node n) op_delete if_unused s = do
    id ← value n.base.m_id
    version ← value n.base.m_version
    u.delete_node changeset (to_uint64 id) version if_unused s
  put_in_buffer (a_way w) op_create if_unused s = do
    id ← value w.base.m_id
    u.add_way changeset id w.m_way_nodes w.base.m_tags s
  put_in_buffer (a_way w) op_modify if_unused s = do
    id ← value w.base.m_id
    version ← value w.base.m_version
    u.modify_way changeset (to_uint64 id) version w.m_way_nodes w.base.m_tags s
  put_in_buffer (a_way w) op_delete if_unused s = do
    id ← value w.base.m_id
    version ← value w.base.m_version
    u.delete_way changeset (to_uint64 id) version if_unused s
  put_in_buffer (a_relation r) op_create if_unused s = do
    id ← value r.base.m_id
    u.add_relation changeset id r.m_relation_member r.base.m_tags s
  put_in_buffer (a_relation r) op_modify if_unused s = do
    id ← value r.base.m_id
    version ← value r.base.m_version
    u.modify_relation changeset (to_uint64 id) version r.m_relation_member r.base.m_tags s
  put_in_buffer (a_relation r) op_delete if_unused s = do
    id ← value r.base.m_id
    version ← value r.base.m_version
    u.delete_relation changeset (to_uint64 id) version if_unused s

  unfoldable pub put_all : List (Change D) → S → Result S
  put_all [] s = ok s
  put_all (c ∷ cs) s = put_in_buffer c.object c.op c.if_unused s >>= put_all cs

  -- What is processed after a change: the updater's buffer of created or of deleted objects, or, after
  -- a modification, the buffers of modified nodes, then of ways, then of relations.
  unfoldable pub process_after : Object D → Operation → S → Result S
  process_after (a_node n) op_create s = u.process_new_nodes s
  process_after (a_way w) op_create s = u.process_new_ways s
  process_after (a_relation r) op_create s = u.process_new_relations s
  process_after (a_node n) op_delete s = u.process_delete_nodes s
  process_after (a_way w) op_delete s = u.process_delete_ways s
  process_after (a_relation r) op_delete s = u.process_delete_relations s
  process_after o op_modify s = do
    nodes_done ← u.process_modify_nodes s
    ways_done ← u.process_modify_ways nodes_done
    u.process_modify_relations ways_done
  process_after o op_undefined s = ok s

  -- Group by group: all changes of the group are put in the buffers, which are then processed once,
  -- as after the first change of the group.
  unfoldable pub process_groups : List (HandlerState × List (Change D)) → S → Result S
  unfolding process_after
  process_groups [] s = ok s
  process_groups ((k, []) ∷ gs) s = process_groups gs s
  process_groups ((k, c ∷ g) ∷ gs) s =
      put_all (c ∷ g) s >>= process_after c.object c.op >>= process_groups gs

  -- A change that is admitted: the state is changed, then the object is put in a buffer.
  pub process_object-eq :
      (o : Object D) (op : Operation) (b : Bool) (h : Handler S)
      → op ≢ op_undefined
      → (base_of o).m_changeset ≡ some changeset
      → process_object o op b h ≡ (
          handle_new_state u (kind_of_object o op) h >>= λ h'.
          with_updaters u (put_in_buffer o op b) h')
  unfolding put_in_buffer process_node process_way process_relation check_osm_object
  process_object-eq (a_node n) op_create b h d e = ground (arith, ==_refl changeset)
  process_object-eq (a_node n) op_modify b h d e = ground (arith, ==_refl changeset)
  process_object-eq (a_node n) op_delete b h d e = ground (arith, ==_refl changeset)
  process_object-eq (a_way w) op_create b h d e = ground (arith, ==_refl changeset)
  process_object-eq (a_way w) op_modify b h d e = ground (arith, ==_refl changeset)
  process_object-eq (a_way w) op_delete b h d e = ground (arith, ==_refl changeset)
  process_object-eq (a_relation r) op_create b h d e = ground (arith, ==_refl changeset)
  process_object-eq (a_relation r) op_modify b h d e = ground (arith, ==_refl changeset)
  process_object-eq (a_relation r) op_delete b h d e = ground (arith, ==_refl changeset)
  process_object-eq o op_undefined b h d e = ground arith
