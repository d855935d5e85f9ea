-- ===== src/Upload/Integrity.antt =====
-- An upload leaves no way with a node that is missing or deleted, and no relation with a node or a
-- way as a member that is.
use openstreetmap_cgimap.NodeUpdater.Tables.{mem_id}
use openstreetmap_cgimap.Prelude.{
  ℕ, String, ◌≡◌, ap, true, Option, none, List, [], ◌∷◌, map, arith, ℕ-Eq, String-Eq, All,
}
use openstreetmap_cgimap.Prelude.Int.{ℤ, ℤ-Eq}
use openstreetmap_cgimap.Types.{Result, ok, >>=-eq-ok, ok-injective, ObjectType-Eq, Pair-Eq}
use openstreetmap_cgimap.Database.{Database, NodeRow, CurrentWayNode, CurrentMember, member_ids}
use openstreetmap_cgimap.Double.{DoubleOps}
use openstreetmap_cgimap.OsmObject.{Limits}
use openstreetmap_cgimap.Tracking.{DiffResult, assemble_diffresult}
use openstreetmap_cgimap.Element.{visible_ids}
use openstreetmap_cgimap.Element.Found.{mem_id-append}
use openstreetmap_cgimap.NodeUpdater.{NodeUpdater, add_node, modify_node, delete_node}
use openstreetmap_cgimap.NodeUpdater.Integrity.{
  KeepsUsedNodes, process_new_nodes-keeps, process_modify_nodes-keeps, process_delete_nodes-keeps,
}
use openstreetmap_cgimap.WayUpdater.Tables.{visible_node_ids}
use openstreetmap_cgimap.WayUpdater.{WayUpdater, add_way, modify_way, delete_way, assert_nodes}
use openstreetmap_cgimap.WayUpdater.Integrity.{
  HasVisibleNode, WayNodesVisible, process_new_ways-keeps, process_modify_ways-keeps,
  process_delete_ways-keeps,
}
use openstreetmap_cgimap.WayUpdater.Unused.{
  KeepsUsedWays, process_new_ways-used, process_modify_ways-used, process_delete_ways-used,
}
use openstreetmap_cgimap.RelationUpdater.{
  RelationUpdater, add_relation, modify_relation, delete_relation,
}
use openstreetmap_cgimap.RelationUpdater.Integrity.{
  HasVisibleMember, MembersVisible, KeepsMembers, process_new_relations-keeps,
  process_modify_relations-keeps, process_delete_relations-keeps,
}
use openstreetmap_cgimap.OsmObject.Relation.{RelationMember}
use openstreetmap_cgimap.NodeUpdater.Process.{
  process_new_nodes, process_modify_nodes, process_delete_nodes,
}
use openstreetmap_cgimap.WayUpdater.Process.{
  process_new_ways, process_modify_ways, process_delete_ways,
}
use openstreetmap_cgimap.RelationUpdater.Process.{
  process_new_relations, process_modify_relations, process_delete_relations,
}
use openstreetmap_cgimap.Handler.{
  st_initial, st_finished, start_document, end_document, finish_processing, Handler,
}
use openstreetmap_cgimap.Handler.Kept.{
  Keeps, UpdatersKeep, handle_new_state-keeps, process_node-keeps, process_way-keeps,
  process_relation-keeps,
}
use openstreetmap_cgimap.XmlParser.{Event, new_parser}
use openstreetmap_cgimap.XmlParser.Reader.{Element, events}
use openstreetmap_cgimap.XmlParser.Events.{process_message}
use openstreetmap_cgimap.XmlParser.Valid.{IsKept, process_message-keeps}
use openstreetmap_cgimap.Upload.{
  Upload, on_nodes, on_ways, on_relations, upload_updaters, upload_callback, upload_message,
}

-- Every node of a way is visible, and so is every member that is a node or a way.
abbrev pub IsIntact : Database → Type 0
IsIntact db = WayNodesVisible db × MembersVisible db

way_nodes-stay :
    (nodes nodes' : List NodeRow) (wns : List CurrentWayNode)
    → ((j : ℕ)
        → mem_id j (map (λ (w : CurrentWayNode). w.node_id) wns) ≡ true
        → mem_id j (visible_node_ids nodes) ≡ true
        → mem_id j (visible_node_ids nodes') ≡ true)
    → All (HasVisibleNode nodes) wns
    → All (HasVisibleNode nodes') wns
way_nodes-stay nodes nodes' [] stay p = tt
way_nodes-stay nodes nodes' (wn ∷ wns) stay (p, ps) = (
  stay wn.node_id (ground arith) p,
  way_nodes-stay nodes nodes' wns (λ j m. stay j (ground arith)) ps,
)

members-stay :
    (nodes nodes' ways ways' : List ℕ) (ms : List CurrentMember)
    → ((j : ℕ)
        → mem_id j (member_ids "Node" ms) ≡ true
        → mem_id j nodes ≡ true
        → mem_id j nodes' ≡ true)
    → ((j : ℕ)
        → mem_id j (member_ids "Way" ms) ≡ true
        → mem_id j ways ≡ true
        → mem_id j ways' ≡ true)
    → All (HasVisibleMember nodes ways) ms
    → All (HasVisibleMember nodes' ways') ms
unfolding member_ids
members-stay nodes nodes' ways ways' [] f g p = tt
members-stay nodes nodes' ways ways' (m ∷ ms) f g (p, ps) = (
  ground (arith, f m.member_id, g m.member_id),
  members-stay nodes nodes' ways ways' ms (λ j h. f j (ground arith)) (λ j h. g j (ground arith))
      ps,
)

nodes-keep : (db db' : Database) → KeepsUsedNodes db db' → IsIntact db → IsIntact db'
nodes-keep db db' (same, visible) (way_nodes, members) =
    let same_way_nodes : db'.current_way_nodes ≡ db.current_way_nodes = ap (λ t. t.0) same in
    let same_members : db'.current_relation_members ≡ db.current_relation_members =
      ap (λ t. t.1.0) same in
    let same_ways : db'.current_ways ≡ db.current_ways = ap (λ t. t.1.1.0) same in
    let column = map (λ (w : CurrentWayNode). w.node_id) db.current_way_nodes in
    let used = λ (j : ℕ). mem_id-append j column (member_ids "Node" db.current_relation_members) in
    (
      rw same_way_nodes (
          way_nodes-stay db.current_nodes db'.current_nodes db.current_way_nodes
            (λ j h m. visible j (ground (arith, used j)) m) way_nodes),
      rw same_members (
          rw same_ways (
            members-stay (visible_node_ids db.current_nodes) (visible_node_ids db'.current_nodes)
              (visible_ids db.current_ways) (visible_ids db.current_ways)
              db.current_relation_members (λ j h m. visible j (ground (arith, used j)) m)
              (λ j h m. m) members)),
    )

ways-keep :
    (db db' : Database)
    → KeepsUsedWays db db'
    → (WayNodesVisible db → WayNodesVisible db')
    → IsIntact db
    → IsIntact db'
ways-keep db db' (same, visible) way_nodes_keep (way_nodes, members) =
    let same_nodes : db'.current_nodes ≡ db.current_nodes = ap (λ t. t.0) same in
    let same_members : db'.current_relation_members ≡ db.current_relation_members =
      ap (λ t. t.1.0) same in
    (
      way_nodes_keep way_nodes,
      rw same_members (
          rw same_nodes (
            members-stay (visible_node_ids db.current_nodes) (visible_node_ids db.current_nodes)
              (visible_ids db.current_ways) (visible_ids db'.current_ways)
              db.current_relation_members (λ j h m. m) visible members)),
    )

relations-keep : (db db' : Database) → KeepsMembers db db' → IsIntact db → IsIntact db'
relations-keep db db' (same, visible) (way_nodes, members) =
    let same_nodes : db'.current_nodes ≡ db.current_nodes = ap (λ t. t.0) same in
    let same_way_nodes : db'.current_way_nodes ≡ db.current_way_nodes = ap (λ t. t.1.1) same in
    (rw same_nodes (rw same_way_nodes way_nodes), visible members)

abbrev IntactUpload : Upload → Type 0
IntactUpload u = IsIntact u.db

add_way-db :
    (most : ℕ) (changeset id : ℤ) (nodes : List ℤ) (tags : List (String × String))
    (s s' : WayUpdater)
    → add_way most changeset id nodes tags s ≡ ok s'
    → s'.db ≡ s.db
unfolding add_way
add_way-db most changeset id nodes tags s s' h = ground arith

modify_way-db :
    (most : ℕ) (changeset : ℤ) (id version : ℕ) (nodes : List ℤ) (tags : List (String × String))
    (s s' : WayUpdater)
    → modify_way most changeset id version nodes tags s ≡ ok s'
    → s'.db ≡ s.db
unfolding modify_way
modify_way-db most changeset id version nodes tags s s' h = ground arith

add_relation-db :
    (changeset id : ℤ) (members : List RelationMember) (tags : List (String × String))
    (s s' : RelationUpdater)
    → add_relation changeset id members tags s ≡ ok s'
    → s'.db ≡ s.db
unfolding add_relation
add_relation-db changeset id members tags s s' h = ground arith

modify_relation-db :
    (changeset : ℤ) (id version : ℕ) (members : List RelationMember) (tags : List (String × String))
    (s s' : RelationUpdater)
    → modify_relation changeset id version members tags s ≡ ok s'
    → s'.db ≡ s.db
unfolding modify_relation
modify_relation-db changeset id version members tags s s' h = ground arith

add_node-db :
    {D : Type 0} (ops : DoubleOps D) (lat lon : D) (changeset id : ℤ)
    (tags : List (String × String)) (s s' : NodeUpdater)
    → add_node ops lat lon changeset id tags s ≡ ok s'
    → s'.db ≡ s.db
unfolding add_node
add_node-db ops lat lon changeset id tags s s' h = ground arith

module _ {D : Type 0} (ops : DoubleOps D) (limits : Limits) where
  on_nodes-Keeps :
      (f : NodeUpdater → Result NodeUpdater)
      → ((s s' : NodeUpdater) → f s ≡ ok s' → IsIntact s.db → IsIntact s'.db)
      → Keeps (upload_updaters ops limits) IntactUpload (on_nodes f)
  on_nodes-Keeps f keeps u u' h intact =
      let (n, done, h1) = >>=-eq-ok (f _) _ h in rw (← ok-injective h1) (keeps _ n done intact)

  on_ways-Keeps :
      (f : WayUpdater → Result WayUpdater)
      → ((s s' : WayUpdater) → f s ≡ ok s' → IsIntact s.db → IsIntact s'.db)
      → Keeps (upload_updaters ops limits) IntactUpload (on_ways f)
  on_ways-Keeps f keeps u u' h intact =
      let (n, done, h1) = >>=-eq-ok (f _) _ h in rw (← ok-injective h1) (keeps _ n done intact)

  on_relations-Keeps :
      (f : RelationUpdater → Result RelationUpdater)
      → ((s s' : RelationUpdater) → f s ≡ ok s' → IsIntact s.db → IsIntact s'.db)
      → Keeps (upload_updaters ops limits) IntactUpload (on_relations f)
  on_relations-Keeps f keeps u u' h intact =
      let (n, done, h1) = >>=-eq-ok (f _) _ h in rw (← ok-injective h1) (keeps _ n done intact)

  -- Filling the buffers leaves the database alone, and processing them leaves it intact.
  upload_updaters-UpdatersKeep : UpdatersKeep (upload_updaters ops limits) IntactUpload
  unfolding upload_updaters add_node modify_node delete_node add_way modify_way delete_way
      add_relation modify_relation delete_relation assert_nodes
  upload_updaters-UpdatersKeep = record {
    add_node_keeps = λ lat lon changeset id tags.
        on_nodes-Keeps (add_node ops lat lon changeset id tags)
          (λ s s' h intact. rw (add_node-db ops lat lon changeset id tags s s' h) intact);
    modify_node_keeps = λ lat lon changeset id version tags.
        on_nodes-Keeps (modify_node ops lat lon changeset id version tags)
          (λ s s' h intact. rw (← ok-injective h) intact);
    delete_node_keeps = λ changeset id version b.
        on_nodes-Keeps (delete_node changeset id version b)
          (λ s s' h intact. rw (← ok-injective h) intact);
    new_nodes_keep =
        on_nodes-Keeps process_new_nodes
          (λ s s' h. nodes-keep s.db s'.db (process_new_nodes-keeps s s' h));
    modified_nodes_keep =
        on_nodes-Keeps process_modify_nodes
          (λ s s' h. nodes-keep s.db s'.db (process_modify_nodes-keeps s s' h));
    deleted_nodes_keep =
        on_nodes-Keeps process_delete_nodes
          (λ s s' h. nodes-keep s.db s'.db (process_delete_nodes-keeps s s' h));
    add_way_keeps = λ changeset id nodes tags.
        on_ways-Keeps (add_way limits.way_max_nodes changeset id nodes tags) (λ s s' h intact.
          rw (add_way-db limits.way_max_nodes changeset id nodes tags s s' h) intact);
    modify_way_keeps = λ changeset id version nodes tags.
        on_ways-Keeps (modify_way limits.way_max_nodes changeset id version nodes tags)
          (λ s s' h intact.
            rw (modify_way-db limits.way_max_nodes changeset id version nodes tags s s' h) intact);
    delete_way_keeps = λ changeset id version b.
        on_ways-Keeps (delete_way changeset id version b)
          (λ s s' h intact. rw (← ok-injective h) intact);
    new_ways_keep = on_ways-Keeps process_new_ways (λ s s' h.
        ways-keep s.db s'.db (process_new_ways-used s s' h) (process_new_ways-keeps s s' h));
    modified_ways_keep = on_ways-Keeps process_modify_ways (λ s s' h.
        ways-keep s.db s'.db (process_modify_ways-used s s' h) (process_modify_ways-keeps s s' h));
    deleted_ways_keep = on_ways-Keeps process_delete_ways (λ s s' h.
        ways-keep s.db s'.db (process_delete_ways-used s s' h) (process_delete_ways-keeps s s' h));
    add_relation_keeps = λ changeset id members tags.
        on_relations-Keeps (add_relation changeset id members tags)
          (λ s s' h intact. rw (add_relation-db changeset id members tags s s' h) intact);
    modify_relation_keeps = λ changeset id version members tags.
        on_relations-Keeps (modify_relation changeset id version members tags) (λ s s' h intact.
          rw (modify_relation-db changeset id version members tags s s' h) intact);
    delete_relation_keeps = λ changeset id version b.
        on_relations-Keeps (delete_relation changeset id version b)
          (λ s s' h intact. rw (← ok-injective h) intact);
    new_relations_keep =
        on_relations-Keeps process_new_relations
          (λ s s' h. relations-keep s.db s'.db (process_new_relations-keeps s s' h));
    modified_relations_keep =
        on_relations-Keeps process_modify_relations
          (λ s s' h. relations-keep s.db s'.db (process_modify_relations-keeps s s' h));
    deleted_relations_keep =
        on_relations-Keeps process_delete_relations
          (λ s s' h. relations-keep s.db s'.db (process_delete_relations-keeps s s' h));
  }

  upload_callback-IsKept :
      (changeset : ℤ)
      → IsKept ops limits (upload_callback ops limits changeset) (λ h. IntactUpload h.updaters)
  unfolding upload_callback start_document end_document finish_processing
  upload_callback-IsKept changeset =
      let u = upload_updaters ops limits in
      let kept = upload_updaters-UpdatersKeep in
      record {
        start_keeps = λ s s' intact h. rw (← ok-injective h) intact;
        end_keeps =
            λ s s' intact h. handle_new_state-keeps u IntactUpload kept st_finished s s' h intact;
        node_keeps = λ n op b s s' valid fits intact h.
            process_node-keeps u IntactUpload kept changeset n op b s s' h intact;
        way_keeps = λ w op b s s' valid fits intact h.
            process_way-keeps u IntactUpload kept changeset w op b s s' h intact;
        relation_keeps = λ r op b s s' valid fits intact h.
            process_relation-keeps u IntactUpload kept changeset r op b s s' h intact;
      }

  -- A diff upload that goes through keeps the database intact: if before it every node of a way is
  -- visible, and every node and every way that is a member of a relation, then they are so after
  -- it. The condition is that libxml++ makes the calls of a document for the text.
  pub upload_message-IsIntact :
      (parse_memory : String → List Event × Option String) (changeset : ℤ) (payload : String)
      (doc : Element) (u u' : Upload) (diffresult : List DiffResult)
      → parse_memory payload ≡ (events doc, none)
      → upload_message ops limits parse_memory changeset payload u ≡ ok (u', diffresult)
      → IsIntact u.db
      → IsIntact u'.db
  unfolding upload_message
  upload_message-IsIntact parse_memory changeset payload doc u u' diffresult parses h intact =
      let handler : Handler Upload = record { current_state = st_initial; updaters = u } in
      let (parser, read, h1) =
        >>=-eq-ok
          (process_message ops limits (upload_callback ops limits changeset) parse_memory payload
            (new_parser handler))
          _ h in
      let (rows, assembled, h2) =
        >>=-eq-ok (assemble_diffresult parser.m_callback.updaters.change_tracking) _ h1 in
      let same : parser.m_callback.updaters ≡ u' = ap (λ x. x.0) (ok-injective h2) in
      rw (← same) (
        process_message-keeps ops limits (upload_callback ops limits changeset)
          (λ t. IntactUpload t.updaters) (upload_callback-IsKept changeset) parse_memory payload doc
          handler parser parses intact read)
