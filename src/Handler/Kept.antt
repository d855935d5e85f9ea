-- ===== src/Handler/Kept.antt =====
-- What every call of an updater keeps, the handler keeps.
use openstreetmap_cgimap.Prelude.{ℕ, String, ◌≡◌, inl, inr, Bool, List, ℕ-Eq, String-Eq, Bool-cases}
use openstreetmap_cgimap.Prelude.Int.{ℤ, ℤ-Eq, to_uint64}
use openstreetmap_cgimap.Types.{
  Result, ok, ◌>>=◌, >>=-eq-ok, ok-injective, Operation, op_undefined, op_create, op_modify,
  op_delete, ObjectType-Eq, Pair-Eq,
}
use openstreetmap_cgimap.OsmObject.Node.{Node}
use openstreetmap_cgimap.OsmObject.Way.{Way}
use openstreetmap_cgimap.OsmObject.Relation.{Relation, RelationMember}
use openstreetmap_cgimap.Handler.{
  st_initial, st_create_node, st_create_way, st_create_relation, st_modify, st_delete_relation,
  st_delete_way, st_delete_node, st_finished, st_delete_way, st_delete_relation, st_delete_node,
  st_modify, st_create_relation, st_create_node, st_create_way, Updaters, HandlerState, Handler,
  state_beq, value, process_buffers, handle_new_state, with_updaters, check_osm_object,
  process_node, process_way, process_relation,
}

module _ {D S : Type 0} (u : Updaters D S) (Holds : S → Type 0) where
  -- A call that returns leaves a state where the property holds, if it held before.
  abbrev pub Keeps : (S → Result S) → Type 0
  Keeps f = (s s' : S) → f s ≡ ok s' → Holds s → Holds s'

  -- Every operation of the updaters keeps the property.
  pub record UpdatersKeep : Type 0 where
    pub add_node_keeps :
        (lat lon : D) (changeset id : ℤ) (tags : List (String × String))
        → Keeps (u.add_node lat lon changeset id tags)
    pub modify_node_keeps :
        (lat lon : D) (changeset : ℤ) (id version : ℕ) (tags : List (String × String))
        → Keeps (u.modify_node lat lon changeset id version tags)
    pub delete_node_keeps :
        (changeset : ℤ) (id version : ℕ) (b : Bool) → Keeps (u.delete_node changeset id version b)
    pub new_nodes_keep : Keeps u.process_new_nodes
    pub modified_nodes_keep : Keeps u.process_modify_nodes
    pub deleted_nodes_keep : Keeps u.process_delete_nodes
    pub add_way_keeps :
        (changeset id : ℤ) (nodes : List ℤ) (tags : List (String × String))
        → Keeps (u.add_way changeset id nodes tags)
    pub modify_way_keeps :
        (changeset : ℤ) (id version : ℕ) (nodes : List ℤ) (tags : List (String × String))
        → Keeps (u.modify_way changeset id version nodes tags)
    pub delete_way_keeps :
        (changeset : ℤ) (id version : ℕ) (b : Bool) → Keeps (u.delete_way changeset id version b)
    pub new_ways_keep : Keeps u.process_new_ways
    pub modified_ways_keep : Keeps u.process_modify_ways
    pub deleted_ways_keep : Keeps u.process_delete_ways
    pub add_relation_keeps :
        (changeset id : ℤ) (members : List RelationMember) (tags : List (String × String))
        → Keeps (u.add_relation changeset id members tags)
    pub modify_relation_keeps :
        (changeset : ℤ) (id version : ℕ) (members : List RelationMember)
        (tags : List (String × String))
        → Keeps (u.modify_relation changeset id version members tags)
    pub delete_relation_keeps :
        (changeset : ℤ) (id version : ℕ) (b : Bool)
        → Keeps (u.delete_relation changeset id version b)
    pub new_relations_keep : Keeps u.process_new_relations
    pub modified_relations_keep : Keeps u.process_modify_relations
    pub deleted_relations_keep : Keeps u.process_delete_relations

  module _ (kept : UpdatersKeep) where
    process_buffers-Keeps : (state : HandlerState) → Keeps (process_buffers u state)
    unfolding process_buffers
    process_buffers-Keeps st_initial s s' h held = rw (← ok-injective h) held
    process_buffers-Keeps st_create_node s s' h held = kept.new_nodes_keep s s' h held
    process_buffers-Keeps st_create_way s s' h held = kept.new_ways_keep s s' h held
    process_buffers-Keeps st_create_relation s s' h held = kept.new_relations_keep s s' h held
    process_buffers-Keeps st_modify s s' h held =
        let (s2, h1, h2) = >>=-eq-ok (u.process_modify_nodes s >>= u.process_modify_ways) _ h in
        let (s1, h3, h4) = >>=-eq-ok (u.process_modify_nodes s) _ h1 in
        kept.modified_relations_keep s2 s' h2
          (kept.modified_ways_keep s1 s2 h4 (kept.modified_nodes_keep s s1 h3 held))
    process_buffers-Keeps st_delete_relation s s' h held = kept.deleted_relations_keep s s' h held
    process_buffers-Keeps st_delete_way s s' h held = kept.deleted_ways_keep s s' h held
    process_buffers-Keeps st_delete_node s s' h held = kept.deleted_nodes_keep s s' h held
    process_buffers-Keeps st_finished s s' h held = rw (← ok-injective h) held

    pub handle_new_state-keeps :
        (state : HandlerState) (x y : Handler S)
        → handle_new_state u state x ≡ ok y
        → Holds x.updaters
        → Holds y.updaters
    unfolding handle_new_state
    handle_new_state-keeps state x y h held = elim (Bool-cases (state_beq state x.current_state)) [
      | inl same ↦ rw (← ok-injective (rw same at h)) held
      | inr other ↦
          (let (s, done, h1) =
              >>=-eq-ok (process_buffers u x.current_state x.updaters) _ (rw other at h) in
            rw (← ok-injective h1) (process_buffers-Keeps x.current_state x.updaters s done held))
    ]

    with_updaters-keeps :
        (f : S → Result S) (x y : Handler S)
        → Keeps f
        → with_updaters u f x ≡ ok y
        → Holds x.updaters
        → Holds y.updaters
    with_updaters-keeps f x y keeps h held =
        let (s, done, h1) = >>=-eq-ok (f x.updaters) _ h in
        rw (← ok-injective h1) (keeps x.updaters s done held)

    -- The buffers of the old state, then an operation of an updater.
    then_keeps :
        (state : HandlerState) (f : S → Result S) (x1 x y : Handler S)
        → Keeps f
        → handle_new_state u state x ≡ ok x1
        → with_updaters u f x1 ≡ ok y
        → Holds x.updaters
        → Holds y.updaters
    then_keeps state f x1 x y keeps h h' held =
        with_updaters-keeps f x1 y keeps h' (handle_new_state-keeps state x x1 h held)

    pub process_node-keeps :
        (changeset : ℤ) (n : Node D) (op : Operation) (b : Bool) (x y : Handler S)
        → process_node u changeset n op b x ≡ ok y
        → Holds x.updaters
        → Holds y.updaters
    unfolding process_node
    process_node-keeps changeset n op_undefined b x y h held = cc
    process_node-keeps changeset n op_create b x y h held =
        let (t, checked, h1) = >>=-eq-ok (check_osm_object u changeset n.base) _ h in
        let (x1, before, h2) = >>=-eq-ok (handle_new_state u st_create_node x) _ h1 in
        let (lat, e1, h3) = >>=-eq-ok (value n.m_lat) _ h2 in
        let (lon, e2, h4) = >>=-eq-ok (value n.m_lon) _ h3 in
        let (id, e3, h5) = >>=-eq-ok (value n.base.m_id) _ h4 in
        then_keeps st_create_node _ x1 x y (kept.add_node_keeps lat lon changeset id n.base.m_tags)
          before h5 held
    process_node-keeps changeset n op_modify b x y h held =
        let (t, checked, h1) = >>=-eq-ok (check_osm_object u changeset n.base) _ h in
        let (x1, before, h2) = >>=-eq-ok (handle_new_state u st_modify x) _ h1 in
        let (lat, e1, h3) = >>=-eq-ok (value n.m_lat) _ h2 in
        let (lon, e2, h4) = >>=-eq-ok (value n.m_lon) _ h3 in
        let (id, e3, h5) = >>=-eq-ok (value n.base.m_id) _ h4 in
        let (version, e4, h6) = >>=-eq-ok (value n.base.m_version) _ h5 in
        then_keeps st_modify _ x1 x y
          (kept.modify_node_keeps lat lon changeset (to_uint64 id) version n.base.m_tags) before h6
          held
    process_node-keeps changeset n op_delete b x y h held =
        let (t, checked, h1) = >>=-eq-ok (check_osm_object u changeset n.base) _ h in
        let (x1, before, h2) = >>=-eq-ok (handle_new_state u st_delete_node x) _ h1 in
        let (id, e3, h5) = >>=-eq-ok (value n.base.m_id) _ h2 in
        let (version, e4, h6) = >>=-eq-ok (value n.base.m_version) _ h5 in
        then_keeps st_delete_node _ x1 x y
          (kept.delete_node_keeps changeset (to_uint64 id) version b) before h6 held

    pub process_way-keeps :
        (changeset : ℤ) (w : Way) (op : Operation) (b : Bool) (x y : Handler S)
        → process_way u changeset w op b x ≡ ok y
        → Holds x.updaters
        → Holds y.updaters
    unfolding process_way
    process_way-keeps changeset w op_undefined b x y h held = cc
    process_way-keeps changeset w op_create b x y h held =
        let (t, checked, h1) = >>=-eq-ok (check_osm_object u changeset w.base) _ h in
        let (x1, before, h2) = >>=-eq-ok (handle_new_state u st_create_way x) _ h1 in
        let (id, e3, h5) = >>=-eq-ok (value w.base.m_id) _ h2 in
        then_keeps st_create_way _ x1 x y
          (kept.add_way_keeps changeset id w.m_way_nodes w.base.m_tags) before h5 held
    process_way-keeps changeset w op_modify b x y h held =
        let (t, checked, h1) = >>=-eq-ok (check_osm_object u changeset w.base) _ h in
        let (x1, before, h2) = >>=-eq-ok (handle_new_state u st_modify x) _ h1 in
        let (id, e3, h5) = >>=-eq-ok (value w.base.m_id) _ h2 in
        let (version, e4, h6) = >>=-eq-ok (value w.base.m_version) _ h5 in
        then_keeps st_modify _ x1 x y
          (kept.modify_way_keeps changeset (to_uint64 id) version w.m_way_nodes w.base.m_tags)
          before h6 held
    process_way-keeps changeset w op_delete b x y h held =
        let (t, checked, h1) = >>=-eq-ok (check_osm_object u changeset w.base) _ h in
        let (x1, before, h2) = >>=-eq-ok (handle_new_state u st_delete_way x) _ h1 in
        let (id, e3, h5) = >>=-eq-ok (value w.base.m_id) _ h2 in
        let (version, e4, h6) = >>=-eq-ok (value w.base.m_version) _ h5 in
        then_keeps st_delete_way _ x1 x y (kept.delete_way_keeps changeset (to_uint64 id) version b)
          before h6 held

    pub process_relation-keeps :
        (changeset : ℤ) (r : Relation) (op : Operation) (b : Bool) (x y : Handler S)
        → process_relation u changeset r op b x ≡ ok y
        → Holds x.updaters
        → Holds y.updaters
    unfolding process_relation
    process_relation-keeps changeset r op_undefined b x y h held = cc
    process_relation-keeps changeset r op_create b x y h held =
        let (t, checked, h1) = >>=-eq-ok (check_osm_object u changeset r.base) _ h in
        let (x1, before, h2) = >>=-eq-ok (handle_new_state u st_create_relation x) _ h1 in
        let (id, e3, h5) = >>=-eq-ok (value r.base.m_id) _ h2 in
        then_keeps st_create_relation _ x1 x y
          (kept.add_relation_keeps changeset id r.m_relation_member r.base.m_tags) before h5 held
    process_relation-keeps changeset r op_modify b x y h held =
        let (t, checked, h1) = >>=-eq-ok (check_osm_object u changeset r.base) _ h in
        let (x1, before, h2) = >>=-eq-ok (handle_new_state u st_modify x) _ h1 in
        let (id, e3, h5) = >>=-eq-ok (value r.base.m_id) _ h2 in
        let (version, e4, h6) = >>=-eq-ok (value r.base.m_version) _ h5 in
        then_keeps st_modify _ x1 x y
          (kept.modify_relation_keeps changeset (to_uint64 id) version r.m_relation_member
            r.base.m_tags)
          before h6 held
    process_relation-keeps changeset r op_delete b x y h held =
        let (t, checked, h1) = >>=-eq-ok (check_osm_object u changeset r.base) _ h in
        let (x1, before, h2) = >>=-eq-ok (handle_new_state u st_delete_relation x) _ h1 in
        let (id, e3, h5) = >>=-eq-ok (value r.base.m_id) _ h2 in
        let (version, e4, h6) = >>=-eq-ok (value r.base.m_version) _ h5 in
        then_keeps st_delete_relation _ x1 x y
          (kept.delete_relation_keeps changeset (to_uint64 id) version b) before h6 held
