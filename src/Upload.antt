-- ===== src/Upload.antt =====
-- src/api06/changeset_upload_handler.cpp: a diff upload is read by the parser, whose callback is the
-- change handler over the three updaters, and the answer is assembled.
pub mod Responder
pub mod Integrity
pub mod Allowed
mod Tests
use openstreetmap_cgimap.Prelude.{String, Option, List, ℕ-Eq, String-Eq}
use openstreetmap_cgimap.Prelude.Int.{ℤ, ℤ-Eq}
use openstreetmap_cgimap.Types.{Result, ok, ◌>>=◌, ObjectType-Eq, Pair-Eq}
use openstreetmap_cgimap.Database.{Database}
use openstreetmap_cgimap.Double.{DoubleOps}
use openstreetmap_cgimap.Tracking.{OsmChangeTracking, DiffResult, assemble_diffresult}
use openstreetmap_cgimap.OsmObject.{Limits}
use openstreetmap_cgimap.NodeUpdater.{NodeUpdater, add_node, modify_node, delete_node}
use openstreetmap_cgimap.NodeUpdater.Process.{
  process_new_nodes, process_modify_nodes, process_delete_nodes,
}
use openstreetmap_cgimap.WayUpdater.{WayUpdater, add_way, modify_way, delete_way}
use openstreetmap_cgimap.WayUpdater.Process.{
  process_new_ways, process_modify_ways, process_delete_ways,
}
use openstreetmap_cgimap.RelationUpdater.{
  RelationUpdater, add_relation, modify_relation, delete_relation,
}
use openstreetmap_cgimap.RelationUpdater.Process.{
  process_new_relations, process_modify_relations, process_delete_relations,
}
use openstreetmap_cgimap.Handler.{
  st_initial, Updaters, Handler, process_node, process_way, process_relation, start_document,
  end_document,
}
use openstreetmap_cgimap.XmlParser.{ParserCallback, Event, new_parser}
use openstreetmap_cgimap.XmlParser.Events.{process_message}

-- The updaters, and the transaction and the tracking object that they refer to.
pub record Upload : Type 0 where
  pub db : Database
  pub change_tracking : OsmChangeTracking
  pub node_updater : NodeUpdater
  pub way_updater : WayUpdater
  pub relation_updater : RelationUpdater

-- A call of one of the updaters: it works on the shared objects.
abbrev pub on_nodes : (NodeUpdater → Result NodeUpdater) → Upload → Result Upload
on_nodes f u = f (record (u.node_updater) { db = u.db; ct = u.change_tracking }) >>= λ n.
    ok (record u { db = n.db; change_tracking = n.ct; node_updater = n })

abbrev pub on_ways : (WayUpdater → Result WayUpdater) → Upload → Result Upload
on_ways f u = f (record (u.way_updater) { db = u.db; ct = u.change_tracking }) >>= λ w.
    ok (record u { db = w.db; change_tracking = w.ct; way_updater = w })

abbrev pub on_relations : (RelationUpdater → Result RelationUpdater) → Upload → Result Upload
on_relations f u = f (record (u.relation_updater) { db = u.db; ct = u.change_tracking }) >>= λ r.
    ok (record u { db = r.db; change_tracking = r.ct; relation_updater = r })

module _ {D : Type 0} (ops : DoubleOps D) (limits : Limits) where
  unfoldable pub upload_updaters : Updaters D Upload
  unfolding add_node modify_node delete_node process_new_nodes process_modify_nodes
      process_delete_nodes add_way modify_way delete_way process_new_ways process_modify_ways
      process_delete_ways add_relation modify_relation delete_relation process_new_relations
      process_modify_relations process_delete_relations
  upload_updaters = record {
    add_node = λ lat lon changeset id tags. on_nodes (add_node ops lat lon changeset id tags);
    modify_node = λ lat lon changeset id version tags.
        on_nodes (modify_node ops lat lon changeset id version tags);
    delete_node = λ changeset id version b. on_nodes (delete_node changeset id version b);
    process_new_nodes = on_nodes process_new_nodes;
    process_modify_nodes = on_nodes process_modify_nodes;
    process_delete_nodes = on_nodes process_delete_nodes;
    add_way =
        λ changeset id nodes tags. on_ways (add_way limits.way_max_nodes changeset id nodes tags);
    modify_way = λ changeset id version nodes tags.
        on_ways (modify_way limits.way_max_nodes changeset id version nodes tags);
    delete_way = λ changeset id version b. on_ways (delete_way changeset id version b);
    process_new_ways = on_ways process_new_ways;
    process_modify_ways = on_ways process_modify_ways;
    process_delete_ways = on_ways process_delete_ways;
    add_relation =
        λ changeset id members tags. on_relations (add_relation changeset id members tags);
    modify_relation = λ changeset id version members tags.
        on_relations (modify_relation changeset id version members tags);
    delete_relation =
        λ changeset id version b. on_relations (delete_relation changeset id version b);
    process_new_relations = on_relations process_new_relations;
    process_modify_relations = on_relations process_modify_relations;
    process_delete_relations = on_relations process_delete_relations;
    node_bbox = λ u. u.node_updater.m_bbox;
    way_bbox = λ u. u.way_updater.m_bbox;
    relation_bbox = λ u. u.relation_updater.m_bbox;
  }

  -- The change handler as the callback of the parser.
  unfoldable pub upload_callback : ℤ → ParserCallback D (Handler Upload)
  unfolding upload_updaters process_node process_way process_relation start_document end_document
  upload_callback changeset = record {
    start_document = start_document upload_updaters;
    end_document = end_document upload_updaters;
    process_node = process_node upload_updaters changeset;
    process_way = process_way upload_updaters changeset;
    process_relation = process_relation upload_updaters changeset;
  }

  -- The message is read, and the answer assembled.
  unfoldable pub upload_message :
      (String → List Event × Option String)
      → ℤ
      → String
      → Upload
      → Result (Upload × List DiffResult)
  unfolding upload_callback process_message assemble_diffresult
  upload_message parse_memory changeset payload u = do
    let handler : Handler Upload = record { current_state = st_initial; updaters = u }
    parser ←
        process_message ops limits (upload_callback changeset) parse_memory payload
          (new_parser handler)
    let after = parser.m_callback.updaters
    diffresult ← assemble_diffresult after.change_tracking
    ok (after, diffresult)
