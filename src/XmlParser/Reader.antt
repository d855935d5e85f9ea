-- ===== src/XmlParser/Reader.antt =====
-- What an upload means, read as a tree of elements: the description that the event-driven parser of
-- include/cgimap/api06/changeset_upload/osmchange_xml_input_format.hpp is compared with.
use openstreetmap_cgimap.Prelude.{
  String, Bool, false, none, List, [], ◌∷◌, ◌++◌, if◌then◌else◌, ◌==◌, ℕ-Eq, String-Eq,
}
use openstreetmap_cgimap.Prelude.Int.{ℤ-Eq}
use openstreetmap_cgimap.Types.{
  payload_error, Result, ok, err, ◌>>=◌, ◌>>◌, guard, Operation, op_create, op_modify, op_delete,
  ObjectType-Eq, Pair-Eq,
}
use openstreetmap_cgimap.Double.{DoubleOps}
use openstreetmap_cgimap.OsmObject.{Limits, new_object}
use openstreetmap_cgimap.OsmObject.Node.{Node, new_node, set_lat_text, set_lon_text}
use openstreetmap_cgimap.OsmObject.Way.{Way, new_way}
use openstreetmap_cgimap.OsmObject.Relation.{Relation, new_relation}
use openstreetmap_cgimap.XmlParser.{
  Attributes, check_attributes, init_object, add_tag_element, add_member_element, add_nd_element,
  ParserCallback, Event, start_element, end_element,
}
use openstreetmap_cgimap.XmlParser.Events.{init_node, if_unused_attribute}
use openstreetmap_cgimap.OsmObject.Node
use openstreetmap_cgimap.OsmObject.Way
use openstreetmap_cgimap.OsmObject.Relation

-- The elements of a document: name, attributes and the elements within.
mutual
  pub data Element : Type 0 where
    element : String → Attributes → Elements → Element

  pub data Elements : Type 0 where
    no_elements : Elements
    more : Element → Elements → Elements

-- The calls of a SAX parser for a document.
unfoldable mutual
  pub events : Element → List Event
  events (element name attrs children) =
      start_element name attrs ∷ (events_all children ++ end_element name ∷ [])

  pub events_all : Elements → List Event
  events_all no_elements = []
  events_all (more e es) = events e ++ events_all es

-- An element of an object has no elements within.
abbrev pub no_children : Elements → Result (Unit {0})
no_children no_elements = ok tt
no_children (more e es) = err (payload_error "xml file nested too deep")

-- The elements of an object, one after the other.
unfoldable pub read_children {ℓ} :
    {A : Type ℓ} → (String → Attributes → A → Result A) → Elements → A → Result A
read_children f no_elements a = ok a
read_children f (more (element name attrs children) es) a = do
  a' ← f name attrs a
  no_children children
  read_children f es a'

unfoldable pub node_child : {D : Type 0} → String → Attributes → Node D → Result (Node D)
unfolding add_tag_element
node_child name attrs n =
    if name == "tag"
    then (add_tag_element attrs n.base >>= λ o. ok (record n { base = o }))
    else ok n

unfoldable pub way_child : String → Attributes → Way → Result Way
unfolding add_tag_element add_nd_element
way_child name attrs w =
    if name == "nd"
    then add_nd_element attrs w
    else (if name == "tag"
        then (add_tag_element attrs w.base >>= λ o. ok (record w { base = o }))
        else ok w)

unfoldable pub relation_child : String → Attributes → Relation → Result Relation
unfolding add_tag_element add_member_element
relation_child name attrs r =
    if name == "member"
    then add_member_element attrs r
    else (if name == "tag"
        then (add_tag_element attrs r.base >>= λ o. ok (record r { base = o }))
        else ok r)

module _ {D S : Type 0} (ops : DoubleOps D) (limits : Limits) (cb : ParserCallback D S) where
  -- An object as its own attributes say.
  unfoldable pub first_node : Operation → Attributes → Result (Node D)
  unfolding init_object init_node
  first_node op attrs = init_object op attrs new_object >>= λ o.
      init_node ops attrs (record { base = o; m_lat = none; m_lon = none })

  unfoldable pub first_way : Operation → Attributes → Result Way
  unfolding init_object
  first_way op attrs = init_object op attrs new_object >>= λ o. ok (record new_way { base = o })

  unfoldable pub first_relation : Operation → Attributes → Result Relation
  unfolding init_object
  first_relation op attrs =
      init_object op attrs new_object >>= λ o. ok (record new_relation { base = o })

  unfoldable pub read_node : Operation → Bool → Attributes → Elements → S → Result S
  unfolding first_node node_child init_object init_node read_children add_tag_element Node.is_valid
  read_node op if_unused attrs children s = do
    n ← first_node op attrs
    n' ← read_children node_child children n
    valid ← Node.is_valid limits op n'
    guard valid (payload_error "{} does not include all mandatory fields")
    cb.process_node n' op if_unused s

  unfoldable pub read_way : Operation → Bool → Attributes → Elements → S → Result S
  unfolding first_way way_child init_object read_children add_tag_element add_nd_element
      Way.is_valid
  read_way op if_unused attrs children s = do
    w ← first_way op attrs
    w' ← read_children way_child children w
    valid ← Way.is_valid limits op w'
    guard valid (payload_error "{} does not include all mandatory fields")
    cb.process_way w' op if_unused s

  unfoldable pub read_relation : Operation → Bool → Attributes → Elements → S → Result S
  unfolding first_relation relation_child init_object read_children add_tag_element
      add_member_element Relation.is_valid
  read_relation op if_unused attrs children s = do
    r ← first_relation op attrs
    r' ← read_children relation_child children r
    valid ← Relation.is_valid limits op r'
    guard valid (payload_error "{} does not include all mandatory fields")
    cb.process_relation r' op if_unused s

  unfoldable pub read_object : Operation → Bool → Element → S → Result S
  unfolding read_node read_way read_relation
  read_object op if_unused (element name attrs children) s =
      if name == "node"
      then read_node op if_unused attrs children s
      else (if name == "way"
          then read_way op if_unused attrs children s
          else (if name == "relation"
              then read_relation op if_unused attrs children s
              else err (payload_error "Unknown element {}, expecting node, way or relation")))

  unfoldable pub read_objects : Operation → Bool → Elements → S → Result S
  unfolding read_object
  read_objects op if_unused no_elements s = ok s
  read_objects op if_unused (more e es) s =
      read_object op if_unused e s >>= read_objects op if_unused es

  unfoldable pub read_action : Element → S → Result S
  unfolding read_objects check_attributes
  read_action (element name attrs children) s =
      if name == "create"
      then read_objects op_create false children s
      else (if name == "modify"
          then read_objects op_modify false children s
          else (if name == "delete"
              then (check_attributes if_unused_attribute attrs false >>= λ b.
                  read_objects op_delete b children s)
              else err (payload_error "Unknown action {}, choices are create, modify, delete")))

  unfoldable pub read_actions : Elements → S → Result S
  unfolding read_action
  read_actions no_elements s = ok s
  read_actions (more e es) s = read_action e s >>= read_actions es

  -- A document read from its outermost element inwards.
  unfoldable pub read_document : Element → S → Result S
  unfolding read_actions
  read_document (element name attrs children) s = do
    guard (name == "osmChange") (payload_error "Unknown top-level element {}, expecting osmChange")
    cb.start_document s >>= read_actions children >>= cb.end_document
