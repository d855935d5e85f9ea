-- ===== src/XmlParser/Refines.antt =====
-- The event-driven parser of
-- include/cgimap/api06/changeset_upload/osmchange_xml_input_format.hpp does what the reader of a
-- tree of elements does.
use openstreetmap_cgimap.XmlParser.Contents.{Agrees-ok, refl_error, read_objects-Agrees}
use openstreetmap_cgimap.Prelude.{◌≢◌, none, true, if◌then◌else◌}
use openstreetmap_cgimap.XmlParser.Events.{if_unused_attribute, process_message}
use openstreetmap_cgimap.Prelude.{
  sym, [], String, ◌≡◌, refl, ap, ◌∙◌, inl, inr, Bool, false, Option, List, ◌∷◌, arith, ◌==◌, ℕ-Eq,
  String-Eq, Bool-cases,
}
use openstreetmap_cgimap.Prelude.Int.{ℤ-Eq}
use openstreetmap_cgimap.Types.{
  op_delete, op_modify, op_create, guard, >>=-ok, Result-cases, op_undefined, payload_error, Result,
  ok, err, ◌>>=◌, Operation, ObjectType-Eq, Pair-Eq,
}
use openstreetmap_cgimap.Double.{DoubleOps}
use openstreetmap_cgimap.OsmObject.{Limits}
use openstreetmap_cgimap.OsmObject.Node.{Node}
use openstreetmap_cgimap.OsmObject.Way.{Way}
use openstreetmap_cgimap.OsmObject.Relation.{Relation}
use openstreetmap_cgimap.XmlParser.{
  check_attributes, XmlParser, Event, new_parser, top, root, Attributes, Context, ParserCallback,
}
use openstreetmap_cgimap.XmlParser.Events.{on_events, on_start_element, on_end_element}
use openstreetmap_cgimap.XmlParser.Reader.{
  read_document, read_actions, read_action, Element, Elements, element, no_elements, more, events,
  events_all, read_objects,
}
use openstreetmap_cgimap.XmlParser.Nesting.{
  at, context_of, run, Agrees, Agrees-bind, Agrees-eq, on_events-append, element-events,
}

module _ {D S : Type 0} (ops : DoubleOps D) (limits : Limits) (cb : ParserCallback D S) where
  finish-action :
      (cs : List Context) (op : Operation) (b : Bool) (name : String)
      → ((n : Option (Node D)) (w : Option Way) (r : Option Relation) (s : S)
          → on_end_element ops limits cb name (at (context_of op ∷ top ∷ cs) op b n w r s)
            ≡ ok (at (top ∷ cs) op_undefined false n w r s))
      → (n : Option (Node D)) (w : Option Way) (r : Option Relation) (s : S) (es : Elements)
      → Agrees
          (top ∷ cs)
          op_undefined
          false
          (run ops limits cb (events_all es) (at (context_of op ∷ top ∷ cs) op b n w r s)
            >>= on_end_element ops limits cb name)
          (read_objects ops limits cb op b es s)
  unfolding Agrees
  finish-action cs op b name end_ n w r s es =
      Agrees-eq (top ∷ cs) op_undefined false refl
        (sym (>>=-ok (read_objects ops limits cb op b es s)))
        (Agrees-bind (context_of op ∷ top ∷ cs) (top ∷ cs) op op_undefined b false _ _ _ _
          (read_objects-Agrees ops limits cb (top ∷ cs) op b n w r s es)
          (λ n' w' r' s'.
            Agrees-eq (top ∷ cs) op_undefined false (end_ n' w' r' s') refl (n', w', r', refl)))

  -- What the start of an action does to the parser, by the name of the action.
  pub start_action : String → Attributes → Result (Operation × Bool)
  start_action name attrs =
      if name == "create"
      then ok (op_create, false)
      else (if name == "modify"
          then ok (op_modify, false)
          else (if name == "delete"
              then (check_attributes if_unused_attribute attrs false >>= λ b. ok (op_delete, b))
              else err (payload_error "Unknown action {}, choices are create, modify, delete")))

  start-action :
      (cs : List Context) (n : Option (Node D)) (w : Option Way) (r : Option Relation) (s : S)
      (name : String) (attrs : Attributes)
      → on_start_element ops limits cb name attrs (at (top ∷ cs) op_undefined false n w r s)
        ≡ (start_action name attrs >>= λ (op, b). ok (at (context_of op ∷ top ∷ cs) op b n w r s))
  unfolding on_start_element start_action
  start-action cs n w r s name attrs = ground arith

  pub read-action :
      (name : String) (attrs : Attributes) (es : Elements) (s : S)
      → read_action ops limits cb (element name attrs es) s
        ≡ (start_action name attrs >>= λ (op, b). read_objects ops limits cb op b es s)
  unfolding read_action start_action
  read-action name attrs es s = ground arith

  pub start_action_known :
      (name : String) (attrs : Attributes) (op : Operation) (b : Bool)
      → start_action name attrs ≡ ok (op, b)
      → op ≢ op_undefined
  unfolding start_action
  start_action_known name attrs op b h = ground arith

  end-action :
      (cs : List Context) (name : String) (attrs : Attributes) (op : Operation) (b : Bool)
      → start_action name attrs ≡ ok (op, b)
      → (n : Option (Node D)) (w : Option Way) (r : Option Relation) (s : S)
      → on_end_element ops limits cb name (at (context_of op ∷ top ∷ cs) op b n w r s)
        ≡ ok (at (top ∷ cs) op_undefined false n w r s)
  unfolding on_end_element start_action
  end-action cs name attrs op b h n w r s = ground arith

  action-Agrees :
      (cs : List Context) (n : Option (Node D)) (w : Option Way) (r : Option Relation) (s : S)
      (e : Element)
      → Agrees
          (top ∷ cs)
          op_undefined
          false
          (run ops limits cb (events e) (at (top ∷ cs) op_undefined false n w r s))
          (read_action ops limits cb e s)
  action-Agrees cs n w r s (element name attrs es) =
      Agrees-eq (top ∷ cs) op_undefined false
        (element-events ops limits cb name attrs es (at (top ∷ cs) op_undefined false n w r s)
          ∙ ap (λ m. m >>= run ops limits cb (events_all es) >>= on_end_element ops limits cb name)
              (start-action cs n w r s name attrs))
        (read-action name attrs es s)
        (elim (Result-cases (start_action name attrs)) [
          | inl ((op, b), h) ↦
              rw h (finish-action cs op b name (end-action cs name attrs op b h) n w r s es)
          | inr (x, h) ↦ rw h (refl_error ops limits cb (top ∷ cs) op_undefined false x)
        ])

  read_actions-Agrees :
      (cs : List Context) (n : Option (Node D)) (w : Option Way) (r : Option Relation) (s : S)
      (es : Elements)
      → Agrees
          (top ∷ cs)
          op_undefined
          false
          (run ops limits cb (events_all es) (at (top ∷ cs) op_undefined false n w r s))
          (read_actions ops limits cb es s)
  unfolding events read_actions on_events Agrees
  read_actions-Agrees cs n w r s no_elements = (n, w, r, refl)
  read_actions-Agrees cs n w r s (more e es) =
      Agrees-eq (top ∷ cs) op_undefined false
        (on_events-append ops limits cb (events e) (events_all es)
          (at (top ∷ cs) op_undefined false n w r s))
        refl
        (Agrees-bind (top ∷ cs) (top ∷ cs) op_undefined op_undefined false false _ _ _ _
          (action-Agrees cs n w r s e) (λ n' w' r' s'. read_actions-Agrees cs n' w' r' s' es))

  start-document :
      (name : String) (attrs : Attributes) (s : S)
      → on_start_element ops limits cb name attrs (new_parser s) ≡ (
          guard
            (name == "osmChange")
            (payload_error "Unknown top-level element {}, expecting osmChange")
          >>= λ _. cb.start_document s >>= λ s'.
              ok (at (top ∷ root ∷ []) op_undefined false none none none s'))
  unfolding on_start_element
  start-document name attrs s = refl

  end-document :
      (name : String)
      → (name == "osmChange") ≡ true
      → (n : Option (Node D)) (w : Option Way) (r : Option Relation) (s : S)
      → on_end_element ops limits cb name (at (top ∷ root ∷ []) op_undefined false n w r s)
        ≡ (cb.end_document s >>= λ s'. ok (at (root ∷ []) op_undefined false n w r s'))
  unfolding on_end_element
  end-document name h n w r s = rw h

  read-document :
      (name : String) (attrs : Attributes) (es : Elements) (s : S)
      → read_document ops limits cb (element name attrs es) s ≡ (
          guard
            (name == "osmChange")
            (payload_error "Unknown top-level element {}, expecting osmChange")
          >>= λ _. cb.start_document s >>= read_actions ops limits cb es >>= cb.end_document)
  unfolding read_document
  read-document name attrs es s = refl

  document-Agrees :
      (s : S) (doc : Element)
      → Agrees
          (root ∷ [])
          op_undefined
          false
          (run ops limits cb (events doc) (new_parser s))
          (read_document ops limits cb doc s)
  document-Agrees s (element name attrs es) =
      Agrees-eq (root ∷ []) op_undefined false
        (element-events ops limits cb name attrs es (new_parser s)
          ∙ ap (λ m. m >>= run ops limits cb (events_all es) >>= on_end_element ops limits cb name)
              (start-document name attrs s))
        (read-document name attrs es s)
        (elim (Bool-cases (name == "osmChange")) [
          | inl is_document ↦ rw is_document (
              Agrees-bind (top ∷ root ∷ []) (root ∷ []) op_undefined op_undefined false false _ _ _
                _
                (Agrees-bind (top ∷ root ∷ []) (top ∷ root ∷ []) op_undefined op_undefined false
                  false _ _ _ _
                  (Agrees-ok ops limits cb (top ∷ root ∷ []) op_undefined false
                    (cb.start_document s) (λ _. none) (λ _. none) (λ _. none))
                  (λ n w r s'. read_actions-Agrees (root ∷ []) n w r s' es))
                (λ n w r s'.
                  Agrees-eq (root ∷ []) op_undefined false (end-document name is_document n w r s')
                    refl
                    (Agrees-ok ops limits cb (root ∷ []) op_undefined false (cb.end_document s')
                      (λ _. n) (λ _. w) (λ _. r))))
          | inr other ↦ rw other (refl_error ops limits cb (root ∷ []) op_undefined false _)
        ])

  -- What is left of a parser: where it is in the document, and the state of its callback.
  abbrev pub outcome : XmlParser D S → Result (List Context × S)
  outcome p = ok (p.m_context, p.m_callback)

  abbrev pub outside_of_elements : S → Result (List Context × S)
  outside_of_elements s = ok (root ∷ [], s)

  same_result :
      (m : Result (XmlParser D S)) (m' : Result S)
      → Agrees (root ∷ []) op_undefined false m m'
      → (m >>= outcome) ≡ (m' >>= outside_of_elements)
  unfolding Agrees
  same_result (ok p) (ok s) (n, w, r, h) = rw h
  same_result (err e) (err e') h = ap err h
  same_result _ _ h = ground arith

  -- The parser, driven by the events of a document, calls its callback just as the description that
  -- reads the document as a tree does: with the same outcome, an error included, it gives the same
  -- state of the callback, and in the end it is outside of every element again.
  -- The condition is that libxml++ makes the calls of a document for the text.
  pub process_message-read_document :
      (parse_memory : String → List Event × Option String) (text : String) (doc : Element) (s : S)
      → parse_memory text ≡ (events doc, none)
      → (process_message ops limits cb parse_memory text (new_parser s) >>= λ p.
          ok (p.m_context, p.m_callback))
        ≡ (read_document ops limits cb doc s >>= outside_of_elements)
  unfolding process_message
  process_message-read_document parse_memory text doc s h = rw h (
      ap (λ m. m >>= outcome) (>>=-ok (on_events ops limits cb (events doc) (new_parser s)))
      ∙ same_result _ _ (document-Agrees s doc))
