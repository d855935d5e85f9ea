-- ===== src/XmlParser/Events.antt =====
-- The calls of libxml++ that include/cgimap/api06/changeset_upload/osmchange_xml_input_format.hpp
-- answers.
use openstreetmap_cgimap.Prelude.{
  Option, String, Bool, true, false, none, some, List, [], ◌∷◌, if◌then◌else◌, ◌==◌, ℕ-Eq,
  String-Eq,
}
use openstreetmap_cgimap.Prelude.Int.{ℤ-Eq}
use openstreetmap_cgimap.Types.{
  bad_request, payload_error, assertion_failed, Result, ok, err, ◌>>=◌, ◌>>◌, guard, op_undefined,
  op_create, op_modify, op_delete, ObjectType-Eq, Pair-Eq,
}
use openstreetmap_cgimap.Double.{DoubleOps}
use openstreetmap_cgimap.OsmObject.{Limits, new_object}
use openstreetmap_cgimap.OsmObject.Node.{Node, new_node, set_lat_text, set_lon_text}
use openstreetmap_cgimap.OsmObject.Way.{Way, new_way}
use openstreetmap_cgimap.OsmObject.Relation.{Relation, new_relation}
use openstreetmap_cgimap.XmlParser.{
  Attributes, check_attributes, init_object, add_tag_element, add_member_element, add_nd_element,
  Context, root, top, in_create, in_modify, in_delete, in_node, in_way, in_relation, in_object,
  ParserCallback, XmlParser, deref, assert, Event, start_element, end_element,
}
use openstreetmap_cgimap.OsmObject.Node
use openstreetmap_cgimap.OsmObject.Way
use openstreetmap_cgimap.OsmObject.Relation

unfoldable pub node_attribute :
    {D : Type 0} → DoubleOps D → String → String → Node D → Result (Node D)
unfolding set_lat_text set_lon_text
node_attribute ops name value n =
    if name == "lon"
    then set_lon_text ops value n
    else (if name == "lat" then set_lat_text ops value n else ok n)

unfoldable pub init_node : {D : Type 0} → DoubleOps D → Attributes → Node D → Result (Node D)
unfolding node_attribute check_attributes set_lat_text set_lon_text
init_node ops attrs n = check_attributes (node_attribute ops) attrs n

abbrev pub if_unused_attribute : String → String → Bool → Result Bool
if_unused_attribute name value b = if name == "if-unused" then ok true else ok b

module _ {D S : Type 0} (ops : DoubleOps D) (limits : Limits) (cb : ParserCallback D S) where
  abbrev pub push : Context → XmlParser D S → XmlParser D S
  push c p = record p { m_context = c ∷ p.m_context }

  -- `on_start_element` in the context of the document.
  unfoldable pub start_root : String → XmlParser D S → Result (XmlParser D S)
  start_root element p = do
    guard (element == "osmChange")
        (payload_error "Unknown top-level element {}, expecting osmChange")
    s ← cb.start_document p.m_callback
    ok (push top (record p { m_callback = s }))

  -- In the context of the element osmChange.
  unfoldable pub start_top : String → Attributes → XmlParser D S → Result (XmlParser D S)
  unfolding check_attributes
  start_top element attrs p =
      if element == "create"
      then ok (record (push in_create p) { m_operation = op_create })
      else (if element == "modify"
          then ok (record (push in_modify p) { m_operation = op_modify })
          else (if element == "delete"
              then (check_attributes if_unused_attribute attrs false >>= λ b.
                  ok (record (push in_delete p) { m_operation = op_delete; m_if_unused = b }))
              else err (payload_error "Unknown action {}, choices are create, modify, delete")))

  -- In the context of the elements create, modify and delete.
  unfoldable pub start_object : String → Attributes → XmlParser D S → Result (XmlParser D S)
  unfolding init_object init_node
  start_object element attrs p =
      if element == "node"
      then (init_object p.m_operation attrs new_object >>= λ o.
          init_node ops attrs (record { base = o; m_lat = none; m_lon = none }) >>= λ n.
          ok (record (push in_node p) { m_node = some n }))
      else (if element == "way"
          then (init_object p.m_operation attrs new_object >>= λ o.
              ok (record (push in_way p) { m_way = some (record new_way { base = o }) }))
          else (if element == "relation"
              then (init_object p.m_operation attrs new_object >>= λ o.
                  ok (record (push in_relation p) {
                    m_relation = some (record new_relation { base = o });
                  }))
              else err (payload_error "Unknown element {}, expecting node, way or relation")))

  unfoldable pub start_in_node : String → Attributes → XmlParser D S → Result (XmlParser D S)
  unfolding add_tag_element
  start_in_node element attrs p =
      if element == "tag"
      then (deref p.m_node >>= λ n. add_tag_element attrs n.base >>= λ o.
          ok (record (push in_object p) { m_node = some (record n { base = o }) }))
      else ok (push in_object p)

  unfoldable pub start_in_way : String → Attributes → XmlParser D S → Result (XmlParser D S)
  unfolding add_tag_element add_nd_element
  start_in_way element attrs p =
      if element == "nd"
      then (deref p.m_way >>= add_nd_element attrs >>= λ w.
          ok (record (push in_object p) { m_way = some w }))
      else (if element == "tag"
          then (deref p.m_way >>= λ w. add_tag_element attrs w.base >>= λ o.
              ok (record (push in_object p) { m_way = some (record w { base = o }) }))
          else ok (push in_object p))

  unfoldable pub start_in_relation : String → Attributes → XmlParser D S → Result (XmlParser D S)
  unfolding add_tag_element add_member_element
  start_in_relation element attrs p =
      if element == "member"
      then (deref p.m_relation >>= add_member_element attrs >>= λ r.
          ok (record (push in_object p) { m_relation = some r }))
      else (if element == "tag"
          then (deref p.m_relation >>= λ r. add_tag_element attrs r.base >>= λ o.
              ok (record (push in_object p) { m_relation = some (record r { base = o }) }))
          else ok (push in_object p))

  abbrev pub start_in : List Context → String → Attributes → XmlParser D S → Result (XmlParser D S)
  unfolding start_root start_top start_object start_in_node start_in_way start_in_relation
  start_in [] element attrs p = err (assertion_failed "!m_context.empty()")
  start_in (root ∷ _) element attrs p = start_root element p
  start_in (top ∷ _) element attrs p = start_top element attrs p
  start_in (in_create ∷ _) element attrs p = start_object element attrs p
  start_in (in_modify ∷ _) element attrs p = start_object element attrs p
  start_in (in_delete ∷ _) element attrs p = start_object element attrs p
  start_in (in_node ∷ _) element attrs p = start_in_node element attrs p
  start_in (in_way ∷ _) element attrs p = start_in_way element attrs p
  start_in (in_relation ∷ _) element attrs p = start_in_relation element attrs p
  start_in (in_object ∷ _) element attrs p = err (payload_error "xml file nested too deep")

  unfoldable pub on_start_element : String → Attributes → XmlParser D S → Result (XmlParser D S)
  unfolding start_root start_top start_object start_in_node start_in_way start_in_relation
  on_start_element element attrs p = start_in p.m_context element attrs p

  unfoldable pub end_node : List Context → XmlParser D S → Result (XmlParser D S)
  unfolding Node.is_valid
  end_node contexts p = do
    n ← deref p.m_node
    valid ← Node.is_valid limits p.m_operation n
    guard valid (payload_error "{} does not include all mandatory fields")
    s ← cb.process_node n p.m_operation p.m_if_unused p.m_callback
    ok (record p { m_callback = s; m_node = some new_node; m_context = contexts })

  unfoldable pub end_way : List Context → XmlParser D S → Result (XmlParser D S)
  unfolding Way.is_valid
  end_way contexts p = do
    w ← deref p.m_way
    valid ← Way.is_valid limits p.m_operation w
    guard valid (payload_error "{} does not include all mandatory fields")
    s ← cb.process_way w p.m_operation p.m_if_unused p.m_callback
    ok (record p { m_callback = s; m_way = some new_way; m_context = contexts })

  unfoldable pub end_relation : List Context → XmlParser D S → Result (XmlParser D S)
  unfolding Relation.is_valid
  end_relation contexts p = do
    r ← deref p.m_relation
    valid ← Relation.is_valid limits p.m_operation r
    guard valid (payload_error "{} does not include all mandatory fields")
    s ← cb.process_relation r p.m_operation p.m_if_unused p.m_callback
    ok (record p { m_callback = s; m_relation = some new_relation; m_context = contexts })

  -- By the context that ends, and the ones around it.
  abbrev pub end_in : List Context → String → XmlParser D S → Result (XmlParser D S)
  unfolding end_node end_way end_relation
  end_in [] element p = err (assertion_failed "!m_context.empty()")
  end_in (root ∷ _) element p = err (assertion_failed "false")
  end_in (top ∷ cs) element p = do
    assert (element == "osmChange")
    s ← cb.end_document p.m_callback
    ok (record p { m_context = cs; m_operation = op_undefined; m_callback = s })
  end_in (in_create ∷ cs) element p = do
    assert (element == "create")
    ok (record p { m_context = cs; m_operation = op_undefined })
  end_in (in_modify ∷ cs) element p = do
    assert (element == "modify")
    ok (record p { m_context = cs; m_operation = op_undefined })
  end_in (in_delete ∷ cs) element p = do
    assert (element == "delete")
    ok (record p { m_context = cs; m_operation = op_undefined; m_if_unused = false })
  end_in (in_node ∷ cs) element p = do assert (element == "node"); end_node cs p
  end_in (in_way ∷ cs) element p = do assert (element == "way"); end_way cs p
  end_in (in_relation ∷ cs) element p = do assert (element == "relation"); end_relation cs p
  end_in (in_object ∷ cs) element p = ok (record p { m_context = cs })

  unfoldable pub on_end_element : String → XmlParser D S → Result (XmlParser D S)
  unfolding end_node end_way end_relation
  on_end_element element p = end_in p.m_context element p

  unfoldable pub on_event : Event → XmlParser D S → Result (XmlParser D S)
  unfolding on_start_element on_end_element
  on_event (start_element element attrs) p = on_start_element element attrs p
  on_event (end_element element) p = on_end_element element p

  unfoldable pub on_events : List Event → XmlParser D S → Result (XmlParser D S)
  unfolding on_event
  on_events [] p = ok p
  on_events (e ∷ es) p = on_event e p >>= on_events es

  -- `parse_memory` is libxml++'s: the calls it makes for a text, and the error that it stops with.
  unfoldable pub process_message :
      (String → List Event × Option String) → String → XmlParser D S → Result (XmlParser D S)
  unfolding on_events
  process_message parse_memory text p = do
    p' ← on_events (parse_memory text).0 p
    elim (parse_memory text).1 [ none ↦ ok p' | some what ↦ err (bad_request what) ]
