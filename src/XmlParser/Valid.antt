-- ===== src/XmlParser/Valid.antt =====
use openstreetmap_cgimap.XmlParser.{Context}
use openstreetmap_cgimap.OsmObject.Node.{set_lat, set_lon, set_lat_text, set_lon_text}
use openstreetmap_cgimap.Types.{guarded}
-- What include/cgimap/api06/changeset_upload/osmchange_xml_input_format.hpp passes on to its
-- callback.
use openstreetmap_cgimap.Prelude.{
  String, ◌≡◌, sym, ap, ◌∙◌, ◌≢◌, Bool, true, Option, none, List, [], ◌∷◌, arith, ◌==◌, ℕ-Eq,
  String-Eq,
}
use openstreetmap_cgimap.Prelude.Int.{ℤ-Eq}
use openstreetmap_cgimap.Types.{
  ok, ◌>>=◌, guard, >>=-eq-ok, ok-injective, Operation, op_undefined, ObjectType-Eq, Pair-Eq,
}
use openstreetmap_cgimap.Double.{DoubleOps}
use openstreetmap_cgimap.OsmObject.{Limits, new_object}
use openstreetmap_cgimap.OsmObject.Node.{Node, new_node}
use openstreetmap_cgimap.OsmObject.Way.{Way, new_way}
use openstreetmap_cgimap.OsmObject.Relation.{Relation, new_relation}
use openstreetmap_cgimap.XmlParser.{
  Attributes, check_attributes, init_object, ParserCallback, XmlParser, new_parser, Event,
}
use openstreetmap_cgimap.XmlParser.Events.{init_node, node_attribute, process_message}
use openstreetmap_cgimap.XmlParser.Reader.{
  Element, Elements, element, no_elements, more, events, read_children, node_child, way_child,
  relation_child, first_node, first_way, first_relation, read_node, read_way, read_relation,
  read_object, read_objects, read_action, read_actions, read_document,
}
use openstreetmap_cgimap.XmlParser.Versions.{
  VersionFits, VersionFits-same, init_object-VersionFits, children-VersionFits,
  node_child-m_version, way_child-m_version, relation_child-m_version,
}
use openstreetmap_cgimap.XmlParser.Refines.{
  start_action, read-action, start_action_known, process_message-read_document, outcome,
  outside_of_elements,
}
use openstreetmap_cgimap.OsmObject.Node
use openstreetmap_cgimap.OsmObject.Way
use openstreetmap_cgimap.OsmObject.Relation

set_lat_text-base :
    {D : Type 0} (ops : DoubleOps D) (text : String) (n n' : Node D)
    → set_lat_text ops text n ≡ ok n'
    → n'.base ≡ n.base
unfolding set_lat_text set_lat
set_lat_text-base ops text n n' h = ground arith

set_lon_text-base :
    {D : Type 0} (ops : DoubleOps D) (text : String) (n n' : Node D)
    → set_lon_text ops text n ≡ ok n'
    → n'.base ≡ n.base
unfolding set_lon_text set_lon
set_lon_text-base ops text n n' h = ground arith

init_node-base :
    {D : Type 0} (ops : DoubleOps D) (attrs : Attributes) (n n' : Node D)
    → init_node ops attrs n ≡ ok n'
    → n'.base ≡ n.base
unfolding init_node check_attributes node_attribute
init_node-base ops [] n n' h = ground arith
init_node-base ops ((name, text) ∷ attrs) n n' h =
    let (n1, h1, h2) = >>=-eq-ok (node_attribute ops name text n) _ h in
    init_node-base ops attrs n1 n' h2
    ∙ ground (arith, set_lat_text-base ops text n n1, set_lon_text-base ops text n n1)

module _ {D S : Type 0} (ops : DoubleOps D) (limits : Limits) (cb : ParserCallback D S)
    (Holds : S → Type 0) where
  -- A property of the callback's state that every call keeps, where an object that is passed on is
  -- valid for its operation and has a version that fits.
  pub record IsKept : Type 0 where
    pub start_keeps : (s s' : S) → Holds s → cb.start_document s ≡ ok s' → Holds s'
    pub end_keeps : (s s' : S) → Holds s → cb.end_document s ≡ ok s' → Holds s'
    pub node_keeps :
        (n : Node D) (op : Operation) (b : Bool) (s s' : S)
        → Node.is_valid limits op n ≡ ok true
        → VersionFits op n.base
        → Holds s
        → cb.process_node n op b s ≡ ok s'
        → Holds s'
    pub way_keeps :
        (w : Way) (op : Operation) (b : Bool) (s s' : S)
        → Way.is_valid limits op w ≡ ok true
        → VersionFits op w.base
        → Holds s
        → cb.process_way w op b s ≡ ok s'
        → Holds s'
    pub relation_keeps :
        (r : Relation) (op : Operation) (b : Bool) (s s' : S)
        → Relation.is_valid limits op r ≡ ok true
        → VersionFits op r.base
        → Holds s
        → cb.process_relation r op b s ≡ ok s'
        → Holds s'

  module _ (kept : IsKept) where
    read_node-keeps :
        (op : Operation) (b : Bool) (attrs : Attributes) (es : Elements) (s s' : S)
        → op ≢ op_undefined
        → Holds s
        → read_node ops limits cb op b attrs es s ≡ ok s'
        → Holds s'
    unfolding read_node first_node
    read_node-keeps op b attrs es s s' d held h =
        let (n, h1, h2) = >>=-eq-ok (first_node ops limits cb op attrs) _ h in
        let (n', h3, h4) = >>=-eq-ok (read_children node_child es n) _ h2 in
        let (valid, h5, h6) = >>=-eq-ok (Node.is_valid limits op n') _ h4 in
        let (u, h7, h8) = >>=-eq-ok (guard valid _) _ h6 in
        let (o, g1, g2) = >>=-eq-ok (init_object op attrs new_object) _ h1 in
        kept.node_keeps n' op b s s' (h5 ∙ ap ok (guarded valid _ h7))
          (VersionFits-same op o n'.base
            (children-VersionFits node_child (λ n. n.base) op node_child-m_version es n n' h3
              ∙ ap (λ x. x.m_version) (init_node-base ops attrs _ n g2))
            (init_object-VersionFits op attrs new_object o d g1))
          held h8

    read_way-keeps :
        (op : Operation) (b : Bool) (attrs : Attributes) (es : Elements) (s s' : S)
        → op ≢ op_undefined
        → Holds s
        → read_way ops limits cb op b attrs es s ≡ ok s'
        → Holds s'
    unfolding read_way first_way
    read_way-keeps op b attrs es s s' d held h =
        let (w, h1, h2) = >>=-eq-ok (first_way ops limits cb op attrs) _ h in
        let (w', h3, h4) = >>=-eq-ok (read_children way_child es w) _ h2 in
        let (valid, h5, h6) = >>=-eq-ok (Way.is_valid limits op w') _ h4 in
        let (u, h7, h8) = >>=-eq-ok (guard valid _) _ h6 in
        let (o, g1, g2) = >>=-eq-ok (init_object op attrs new_object) _ h1 in
        kept.way_keeps w' op b s s' (h5 ∙ ap ok (guarded valid _ h7))
          (VersionFits-same op o w'.base
            (children-VersionFits way_child (λ w. w.base) op way_child-m_version es w w' h3
              ∙ ap (λ (x : Way). x.base.m_version) (ok-injective (sym g2)))
            (init_object-VersionFits op attrs new_object o d g1))
          held h8

    read_relation-keeps :
        (op : Operation) (b : Bool) (attrs : Attributes) (es : Elements) (s s' : S)
        → op ≢ op_undefined
        → Holds s
        → read_relation ops limits cb op b attrs es s ≡ ok s'
        → Holds s'
    unfolding read_relation first_relation
    read_relation-keeps op b attrs es s s' d held h =
        let (r, h1, h2) = >>=-eq-ok (first_relation ops limits cb op attrs) _ h in
        let (r', h3, h4) = >>=-eq-ok (read_children relation_child es r) _ h2 in
        let (valid, h5, h6) = >>=-eq-ok (Relation.is_valid limits op r') _ h4 in
        let (u, h7, h8) = >>=-eq-ok (guard valid _) _ h6 in
        let (o, g1, g2) = >>=-eq-ok (init_object op attrs new_object) _ h1 in
        kept.relation_keeps r' op b s s' (h5 ∙ ap ok (guarded valid _ h7))
          (VersionFits-same op o r'.base
            (children-VersionFits relation_child (λ r. r.base) op relation_child-m_version es r r'
                h3
              ∙ ap (λ (x : Relation). x.base.m_version) (ok-injective (sym g2)))
            (init_object-VersionFits op attrs new_object o d g1))
          held h8

    read_object-keeps :
        (op : Operation) (b : Bool) (e : Element) (s s' : S)
        → op ≢ op_undefined
        → Holds s
        → read_object ops limits cb op b e s ≡ ok s'
        → Holds s'
    unfolding read_object
    read_object-keeps op b (element name attrs es) s s' d held h = ground (
      arith,
      read_node-keeps op b attrs es s s',
      read_way-keeps op b attrs es s s',
      read_relation-keeps op b attrs es s s',
    )

    read_objects-keeps :
        (op : Operation) (b : Bool) (es : Elements) (s s' : S)
        → op ≢ op_undefined
        → Holds s
        → read_objects ops limits cb op b es s ≡ ok s'
        → Holds s'
    unfolding read_objects
    read_objects-keeps op b no_elements s s' d held h = rw (← ok-injective h) held
    read_objects-keeps op b (more e es) s s' d held h =
        let (s1, h1, h2) = >>=-eq-ok (read_object ops limits cb op b e s) _ h in
        read_objects-keeps op b es s1 s' d (read_object-keeps op b e s s1 d held h1) h2

    read_action-keeps :
        (e : Element) (s s' : S) → Holds s → read_action ops limits cb e s ≡ ok s' → Holds s'
    read_action-keeps (element name attrs es) s s' held h =
        let ((op, b), h1, h2) =
          >>=-eq-ok (start_action ops limits cb name attrs) _
            (sym (read-action ops limits cb name attrs es s) ∙ h) in
        read_objects-keeps op b es s s' (start_action_known ops limits cb name attrs op b h1) held
          h2

    read_actions-keeps :
        (es : Elements) (s s' : S) → Holds s → read_actions ops limits cb es s ≡ ok s' → Holds s'
    unfolding read_actions
    read_actions-keeps no_elements s s' held h = rw (← ok-injective h) held
    read_actions-keeps (more e es) s s' held h =
        let (s1, h1, h2) = >>=-eq-ok (read_action ops limits cb e s) _ h in
        read_actions-keeps es s1 s' (read_action-keeps e s s1 held h1) h2

    read_document-keeps :
        (doc : Element) (s s' : S) → Holds s → read_document ops limits cb doc s ≡ ok s' → Holds s'
    unfolding read_document
    read_document-keeps (element name attrs es) s s' held h =
        let (u, h0, h1) = >>=-eq-ok (guard (name == "osmChange") _) _ h in
        let (s1, h2, h3) = >>=-eq-ok (cb.start_document s >>= read_actions ops limits cb es) _ h1 in
        let (s2, h4, h5) = >>=-eq-ok (cb.start_document s) _ h2 in
        kept.end_keeps s1 s' (read_actions-keeps es s2 s1 (kept.start_keeps s s2 held h4) h5) h3

    -- When an upload is read, a property of the callback's state that every call keeps still holds,
    -- where each node, way or relation that is passed on is valid for its operation, which is one
    -- of create, modify and delete, and has the version 0 for create and a positive version
    -- otherwise. The condition is that libxml++ makes the calls of a document for the text.
    pub process_message-keeps :
        (parse_memory : String → List Event × Option String) (text : String) (doc : Element) (s : S)
        (p : XmlParser D S)
        → parse_memory text ≡ (events doc, none)
        → Holds s
        → process_message ops limits cb parse_memory text (new_parser s) ≡ ok p
        → Holds p.m_callback
    process_message-keeps parse_memory text doc s p parses held h =
        let same = process_message-read_document ops limits cb parse_memory text doc s parses in
        let passed : (ok p >>= outcome ops limits cb)
            ≡ (read_document ops limits cb doc s >>= outside_of_elements ops limits cb) =
          ap (λ m. m >>= outcome ops limits cb) (sym h) ∙ same in
        let (s1, h1, h2) = >>=-eq-ok (read_document ops limits cb doc s) _ (sym passed) in
        let result : s1 ≡ p.m_callback = ap (λ (x : List Context × S). x.1) (ok-injective h2) in
        rw (← result) (read_document-keeps doc s s1 held h1)
