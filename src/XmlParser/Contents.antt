-- ===== src/XmlParser/Contents.antt =====
-- The contents of the elements create, modify and delete in
-- include/cgimap/api06/changeset_upload/osmchange_xml_input_format.hpp.
use openstreetmap_cgimap.Prelude.{
  String, ◌≡◌, refl, ap, ◌∙◌, inl, inr, Bool, false, Option, some, List, ◌∷◌, arith, ◌==◌, ℕ-Eq,
  String-Eq, Bool-cases,
}
use openstreetmap_cgimap.Prelude.Int.{ℤ-Eq}
use openstreetmap_cgimap.Types.{
  Error, payload_error, Result, ok, err, ◌>>=◌, Operation, ObjectType-Eq, Pair-Eq,
}
use openstreetmap_cgimap.Double.{DoubleOps}
use openstreetmap_cgimap.OsmObject.{Limits}
use openstreetmap_cgimap.OsmObject.Node.{Node, new_node}
use openstreetmap_cgimap.OsmObject.Way.{Way, new_way}
use openstreetmap_cgimap.OsmObject.Relation.{Relation, new_relation}
use openstreetmap_cgimap.XmlParser.{Attributes, Context, ParserCallback}
use openstreetmap_cgimap.XmlParser.Events.{on_events, on_start_element, on_end_element}
use openstreetmap_cgimap.XmlParser.Reader.{
  Element, Elements, element, no_elements, more, events, events_all, read_node, read_way,
  read_relation, read_object, read_objects,
}
use openstreetmap_cgimap.XmlParser.Nesting.{
  at, context_of, run, Agrees, Agrees-bind, Agrees-eq, on_events-append, element-events,
}
use openstreetmap_cgimap.XmlParser.Objects.{node-refines, way-refines, relation-refines}

module _ {D S : Type 0} (ops : DoubleOps D) (limits : Limits) (cb : ParserCallback D S) where
  pub Agrees-ok :
      (cs : List Context) (op : Operation) (b : Bool) (m : Result S) (n : S → Option (Node D))
      (w : S → Option Way) (r : S → Option Relation)
      → Agrees cs op b (m >>= λ s. ok (at cs op b (n s) (w s) (r s) s)) m
  unfolding Agrees
  Agrees-ok cs op b (ok s) n w r = (n s, w s, r s, refl)
  Agrees-ok cs op b (err e) n w r = refl

  pub refl_error :
      (cs : List Context) (op : Operation) (b : Bool) (e : Error)
      → Agrees {D = D} {S = S} cs op b (err e) (err e)
  unfolding Agrees
  refl_error cs op b e = refl

  start-unknown :
      (cs : List Context) (op : Operation) (b : Bool) (n : Option (Node D)) (w : Option Way)
      (r : Option Relation) (s : S) (name : String) (attrs : Attributes)
      → (name == "node") ≡ false
      → (name == "way") ≡ false
      → (name == "relation") ≡ false
      → on_start_element ops limits cb name attrs (at (context_of op ∷ cs) op b n w r s)
        ≡ err (payload_error "Unknown element {}, expecting node, way or relation")
  unfolding on_start_element
  start-unknown cs op b n w r s name attrs x y z = ground arith

  object-Agrees :
      (cs : List Context) (op : Operation) (b : Bool) (n : Option (Node D)) (w : Option Way)
      (r : Option Relation) (s : S) (e : Element)
      → Agrees
          (context_of op ∷ cs)
          op
          b
          (run ops limits cb (events e) (at (context_of op ∷ cs) op b n w r s))
          (read_object ops limits cb op b e s)
  unfolding read_object
  object-Agrees cs op b n w r s (element name attrs es) = elim (Bool-cases (name == "node")) [
    | inl is_node ↦ rw ((String-Eq.beq_iff name "node").0 is_node) (
        Agrees-eq (context_of op ∷ cs) op b (node-refines ops limits cb cs op b n w r s attrs es)
          refl
          (Agrees-ok (context_of op ∷ cs) op b (read_node ops limits cb op b attrs es s)
            (λ _. some new_node) (λ _. w) (λ _. r)))
    | inr not_node ↦ elim (Bool-cases (name == "way")) [
      | inl is_way ↦ rw ((String-Eq.beq_iff name "way").0 is_way) (
          Agrees-eq (context_of op ∷ cs) op b (way-refines ops limits cb cs op b n w r s attrs es)
            refl
            (Agrees-ok (context_of op ∷ cs) op b (read_way ops limits cb op b attrs es s) (λ _. n)
              (λ _. some new_way) (λ _. r)))
      | inr not_way ↦ elim (Bool-cases (name == "relation")) [
        | inl is_relation ↦ rw ((String-Eq.beq_iff name "relation").0 is_relation) (
            Agrees-eq (context_of op ∷ cs) op b
              (relation-refines ops limits cb cs op b n w r s attrs es) refl
              (Agrees-ok (context_of op ∷ cs) op b (read_relation ops limits cb op b attrs es s)
                (λ _. n) (λ _. w) (λ _. some new_relation)))
        | inr not_relation ↦
            Agrees-eq (context_of op ∷ cs) op b
              (element-events ops limits cb name attrs es (at (context_of op ∷ cs) op b n w r s)
                ∙ ap
                    (λ m.
                      m >>= run ops limits cb (events_all es) >>= on_end_element ops limits cb name)
                    (start-unknown cs op b n w r s name attrs not_node not_way not_relation))
              (simp (not_node, not_way, not_relation)) (refl_error _ _ _ _)
      ]
    ]
  ]

  pub read_objects-Agrees :
      (cs : List Context) (op : Operation) (b : Bool) (n : Option (Node D)) (w : Option Way)
      (r : Option Relation) (s : S) (es : Elements)
      → Agrees
          (context_of op ∷ cs)
          op
          b
          (run ops limits cb (events_all es) (at (context_of op ∷ cs) op b n w r s))
          (read_objects ops limits cb op b es s)
  unfolding events read_objects on_events Agrees
  read_objects-Agrees cs op b n w r s no_elements = (n, w, r, refl)
  read_objects-Agrees cs op b n w r s (more e es) =
      Agrees-eq (context_of op ∷ cs) op b
        (on_events-append ops limits cb (events e) (events_all es)
          (at (context_of op ∷ cs) op b n w r s))
        refl
        (Agrees-bind (context_of op ∷ cs) (context_of op ∷ cs) op op b b _ _ _ _
          (object-Agrees cs op b n w r s e)
          (λ n' w' r' s'. read_objects-Agrees cs op b n' w' r' s' es))
