-- ===== src/XmlParser/Objects.antt =====
-- A node, way or relation in include/cgimap/api06/changeset_upload/osmchange_xml_input_format.hpp,
-- from the start of its element to the end.
use openstreetmap_cgimap.Prelude.{
  String, ◌≡◌, refl, sym, ap, ◌∙◌, inl, inr, Bool, Option, some, List, ◌∷◌, arith, ℕ-Eq, String-Eq,
}
use openstreetmap_cgimap.Prelude.Int.{ℤ-Eq}
use openstreetmap_cgimap.Types.{
  Error, payload_error, Result, ok, ◌>>=◌, guard, Result-cases, >>=-assoc, >>=-cong, Operation,
  op_undefined, op_create, op_modify, op_delete, ObjectType-Eq, Pair-Eq,
}
use openstreetmap_cgimap.Double.{DoubleOps}
use openstreetmap_cgimap.OsmObject.{Limits, new_object}
use openstreetmap_cgimap.OsmObject.Node.{Node, new_node, set_lat_text, set_lon_text}
use openstreetmap_cgimap.OsmObject.Way.{Way, new_way}
use openstreetmap_cgimap.OsmObject.Relation.{Relation, new_relation}
use openstreetmap_cgimap.XmlParser.{
  Attributes, init_object, Context, in_node, in_way, in_relation, in_object, ParserCallback,
  XmlParser,
}
use openstreetmap_cgimap.XmlParser.Events.{on_start_element, on_end_element}
use openstreetmap_cgimap.XmlParser.Reader.{
  Elements, element, events, events_all, read_children, node_child, way_child, relation_child,
  first_node, first_way, first_relation, read_node, read_way, read_relation,
}
use openstreetmap_cgimap.XmlParser.Nesting.{
  at, context_of, run, element-events, no_children-refines, children-refine,
}
use openstreetmap_cgimap.OsmObject.Node
use openstreetmap_cgimap.OsmObject.Way
use openstreetmap_cgimap.OsmObject.Relation

module _ {D S : Type 0} (ops : DoubleOps D) (limits : Limits) (cb : ParserCallback D S) where
  missing_fields : Error
  missing_fields = payload_error "{} does not include all mandatory fields"

  -- An object from its start to its end. `state` is the parser's state with the pending object,
  -- `final` the one when the object was passed on.
  module _ {A : Type 0} (name : String) (attrs : Attributes) (p : XmlParser D S)
      (child : String → Attributes → A → Result A) (state : A → XmlParser D S) (init : Result A)
      (valid : A → Result Bool) (process : A → Result S) (final : S → XmlParser D S)
      (start : on_start_element ops limits cb name attrs p ≡ (init >>= λ x. ok (state x)))
      (children-eq : (es : Elements) (x : A)
        → run ops limits cb (events_all es) (state x)
          ≡ (read_children child es x >>= λ x'. ok (state x')))
      (end_ : (x : A)
        → on_end_element ops limits cb name (state x) ≡ (
            valid x >>= λ v. guard v missing_fields >>= λ _. process x >>= λ s. ok (final s))) where
    object-refines :
        (es : Elements)
        → run ops limits cb (events (element name attrs es)) p ≡ (
            (init >>= λ x. read_children child es x >>= λ x'.
            valid x' >>= λ v. guard v missing_fields >>= λ _. process x')
            >>= λ s. ok (final s))
    object-refines es =
        element-events ops limits cb name attrs es p
        ∙ ap (λ m. m >>= run ops limits cb (events_all es) >>= on_end_element ops limits cb name)
            start
        ∙ (elim (Result-cases init) [
          | inl (x, h) ↦ elim (Result-cases (read_children child es x)) [
            | inl (x', k) ↦ simp (h, children-eq es x, k, end_ x') (pass_on x')
            | inr (y, k) ↦ simp (h, children-eq es x, k)
          ]
          | inr (y, h) ↦ simp h
        ])
      where
        pass_on :
            (x : A)
            → (valid x >>= λ v. guard v missing_fields >>= λ _. process x >>= λ s. ok (final s))
              ≡ ((valid x >>= λ v. guard v missing_fields >>= λ _. process x) >>= λ s. ok (final s))
        pass_on x =
            >>=-cong (valid x)
              (λ v. sym (>>=-assoc (guard v missing_fields) (λ _. process x) (λ s. ok (final s))))
            ∙ sym (
                >>=-assoc (valid x) (λ v. guard v missing_fields >>= λ _. process x)
                  (λ s. ok (final s)))

  start_in_node-eq :
      (cs : List Context) (op : Operation) (b : Bool) (w : Option Way) (r : Option Relation) (s : S)
      (name : String) (attrs : Attributes) (o : Node D)
      → on_start_element ops limits cb name attrs (at (in_node ∷ cs) op b (some o) w r s) ≡ (
          node_child name attrs o >>= λ o'. ok (at (in_object ∷ in_node ∷ cs) op b (some o') w r s))
  unfolding on_start_element node_child
  start_in_node-eq cs op b w r s name attrs o = ground arith

  node_children-refine :
      (cs : List Context) (op : Operation) (b : Bool) (w : Option Way) (r : Option Relation) (s : S)
      (es : Elements) (o : Node D)
      → run ops limits cb (events_all es) (at (in_node ∷ cs) op b (some o) w r s)
        ≡ (read_children node_child es o >>= λ o'. ok (at (in_node ∷ cs) op b (some o') w r s))
  unfolding on_end_element
  node_children-refine cs op b w r s =
      children-refine ops limits cb node_child (λ o. at (in_node ∷ cs) op b (some o) w r s)
        (λ o. at (in_object ∷ in_node ∷ cs) op b (some o) w r s) (start_in_node-eq cs op b w r s)
        (λ es o. no_children-refines ops limits cb es (in_node ∷ cs) op b (some o) w r s)
        (λ name o. refl)

  start_in_way-eq :
      (cs : List Context) (op : Operation) (b : Bool) (n : Option (Node D)) (r : Option Relation)
      (s : S) (name : String) (attrs : Attributes) (o : Way)
      → on_start_element ops limits cb name attrs (at (in_way ∷ cs) op b n (some o) r s)
        ≡ (way_child name attrs o >>= λ o'. ok (at (in_object ∷ in_way ∷ cs) op b n (some o') r s))
  unfolding on_start_element way_child
  start_in_way-eq cs op b n r s name attrs o = ground arith

  way_children-refine :
      (cs : List Context) (op : Operation) (b : Bool) (n : Option (Node D)) (r : Option Relation)
      (s : S) (es : Elements) (o : Way)
      → run ops limits cb (events_all es) (at (in_way ∷ cs) op b n (some o) r s)
        ≡ (read_children way_child es o >>= λ o'. ok (at (in_way ∷ cs) op b n (some o') r s))
  unfolding on_end_element
  way_children-refine cs op b n r s =
      children-refine ops limits cb way_child (λ o. at (in_way ∷ cs) op b n (some o) r s)
        (λ o. at (in_object ∷ in_way ∷ cs) op b n (some o) r s) (start_in_way-eq cs op b n r s)
        (λ es o. no_children-refines ops limits cb es (in_way ∷ cs) op b n (some o) r s)
        (λ name o. refl)

  start_in_relation-eq :
      (cs : List Context) (op : Operation) (b : Bool) (n : Option (Node D)) (w : Option Way) (s : S)
      (name : String) (attrs : Attributes) (o : Relation)
      → on_start_element ops limits cb name attrs (at (in_relation ∷ cs) op b n w (some o) s) ≡ (
          relation_child name attrs o >>= λ o'.
          ok (at (in_object ∷ in_relation ∷ cs) op b n w (some o') s))
  unfolding on_start_element relation_child
  start_in_relation-eq cs op b n w s name attrs o = ground arith

  relation_children-refine :
      (cs : List Context) (op : Operation) (b : Bool) (n : Option (Node D)) (w : Option Way) (s : S)
      (es : Elements) (o : Relation)
      → run ops limits cb (events_all es) (at (in_relation ∷ cs) op b n w (some o) s) ≡ (
          read_children relation_child es o >>= λ o'.
          ok (at (in_relation ∷ cs) op b n w (some o') s))
  unfolding on_end_element
  relation_children-refine cs op b n w s =
      children-refine ops limits cb relation_child (λ o. at (in_relation ∷ cs) op b n w (some o) s)
        (λ o. at (in_object ∷ in_relation ∷ cs) op b n w (some o) s)
        (start_in_relation-eq cs op b n w s)
        (λ es o. no_children-refines ops limits cb es (in_relation ∷ cs) op b n w (some o) s)
        (λ name o. refl)

  start_node-eq :
      (cs : List Context) (op : Operation) (b : Bool) (n : Option (Node D)) (w : Option Way)
      (r : Option Relation) (s : S) (attrs : Attributes)
      → on_start_element ops limits cb "node" attrs (at (context_of op ∷ cs) op b n w r s) ≡ (
          first_node ops limits cb op attrs >>= λ x.
          ok (at (in_node ∷ context_of op ∷ cs) op b (some x) w r s))
  unfolding on_start_element first_node
  start_node-eq cs op_create b n w r s attrs =
      sym (>>=-assoc (init_object op_create attrs new_object) _ _)
  start_node-eq cs op_modify b n w r s attrs =
      sym (>>=-assoc (init_object op_modify attrs new_object) _ _)
  start_node-eq cs op_delete b n w r s attrs =
      sym (>>=-assoc (init_object op_delete attrs new_object) _ _)
  start_node-eq cs op_undefined b n w r s attrs =
      sym (>>=-assoc (init_object op_undefined attrs new_object) _ _)

  end_node-eq :
      (cs : List Context) (op : Operation) (b : Bool) (w : Option Way) (r : Option Relation) (s : S)
      (x : Node D)
      → on_end_element ops limits cb "node" (at (in_node ∷ cs) op b (some x) w r s) ≡ (
          Node.is_valid limits op x >>= λ valid.
          guard valid (payload_error "{} does not include all mandatory fields") >>= λ _.
          cb.process_node x op b s >>= λ s'. ok (at cs op b (some new_node) w r s'))
  unfolding on_end_element
  end_node-eq cs op b w r s x = refl

  start_way-eq :
      (cs : List Context) (op : Operation) (b : Bool) (n : Option (Node D)) (w : Option Way)
      (r : Option Relation) (s : S) (attrs : Attributes)
      → on_start_element ops limits cb "way" attrs (at (context_of op ∷ cs) op b n w r s) ≡ (
          first_way ops limits cb op attrs >>= λ x.
          ok (at (in_way ∷ context_of op ∷ cs) op b n (some x) r s))
  unfolding on_start_element first_way
  start_way-eq cs op_create b n w r s attrs =
      sym (>>=-assoc (init_object op_create attrs new_object) _ _)
  start_way-eq cs op_modify b n w r s attrs =
      sym (>>=-assoc (init_object op_modify attrs new_object) _ _)
  start_way-eq cs op_delete b n w r s attrs =
      sym (>>=-assoc (init_object op_delete attrs new_object) _ _)
  start_way-eq cs op_undefined b n w r s attrs =
      sym (>>=-assoc (init_object op_undefined attrs new_object) _ _)

  end_way-eq :
      (cs : List Context) (op : Operation) (b : Bool) (n : Option (Node D)) (r : Option Relation)
      (s : S) (x : Way)
      → on_end_element ops limits cb "way" (at (in_way ∷ cs) op b n (some x) r s) ≡ (
          Way.is_valid limits op x >>= λ valid.
          guard valid (payload_error "{} does not include all mandatory fields") >>= λ _.
          cb.process_way x op b s >>= λ s'. ok (at cs op b n (some new_way) r s'))
  unfolding on_end_element
  end_way-eq cs op b n r s x = refl

  start_relation-eq :
      (cs : List Context) (op : Operation) (b : Bool) (n : Option (Node D)) (w : Option Way)
      (r : Option Relation) (s : S) (attrs : Attributes)
      → on_start_element ops limits cb "relation" attrs (at (context_of op ∷ cs) op b n w r s) ≡ (
          first_relation ops limits cb op attrs >>= λ x.
          ok (at (in_relation ∷ context_of op ∷ cs) op b n w (some x) s))
  unfolding on_start_element first_relation
  start_relation-eq cs op_create b n w r s attrs =
      sym (>>=-assoc (init_object op_create attrs new_object) _ _)
  start_relation-eq cs op_modify b n w r s attrs =
      sym (>>=-assoc (init_object op_modify attrs new_object) _ _)
  start_relation-eq cs op_delete b n w r s attrs =
      sym (>>=-assoc (init_object op_delete attrs new_object) _ _)
  start_relation-eq cs op_undefined b n w r s attrs =
      sym (>>=-assoc (init_object op_undefined attrs new_object) _ _)

  end_relation-eq :
      (cs : List Context) (op : Operation) (b : Bool) (n : Option (Node D)) (w : Option Way) (s : S)
      (x : Relation)
      → on_end_element ops limits cb "relation" (at (in_relation ∷ cs) op b n w (some x) s) ≡ (
          Relation.is_valid limits op x >>= λ valid.
          guard valid (payload_error "{} does not include all mandatory fields") >>= λ _.
          cb.process_relation x op b s >>= λ s'. ok (at cs op b n w (some new_relation) s'))
  unfolding on_end_element
  end_relation-eq cs op b n w s x = refl

  pub node-refines :
      (cs : List Context) (op : Operation) (b : Bool) (n : Option (Node D)) (w : Option Way)
      (r : Option Relation) (s : S) (attrs : Attributes) (children : Elements)
      → run ops limits cb
          (events (element "node" attrs children))
          (at (context_of op ∷ cs) op b n w r s)
        ≡ (read_node ops limits cb op b attrs children s >>= λ s'.
            ok (at (context_of op ∷ cs) op b (some new_node) w r s'))
  unfolding read_node missing_fields
  node-refines cs op b n w r s attrs children =
      object-refines "node" attrs (at (context_of op ∷ cs) op b n w r s) node_child
        (λ x. at (in_node ∷ context_of op ∷ cs) op b (some x) w r s)
        (first_node ops limits cb op attrs) (Node.is_valid limits op)
        (λ x. cb.process_node x op b s) (λ s'. at (context_of op ∷ cs) op b (some new_node) w r s')
        (start_node-eq cs op b n w r s attrs) (node_children-refine (context_of op ∷ cs) op b w r s)
        (end_node-eq (context_of op ∷ cs) op b w r s) children

  pub way-refines :
      (cs : List Context) (op : Operation) (b : Bool) (n : Option (Node D)) (w : Option Way)
      (r : Option Relation) (s : S) (attrs : Attributes) (children : Elements)
      → run ops limits cb
          (events (element "way" attrs children))
          (at (context_of op ∷ cs) op b n w r s)
        ≡ (read_way ops limits cb op b attrs children s >>= λ s'.
            ok (at (context_of op ∷ cs) op b n (some new_way) r s'))
  unfolding read_way missing_fields
  way-refines cs op b n w r s attrs children =
      object-refines "way" attrs (at (context_of op ∷ cs) op b n w r s) way_child
        (λ x. at (in_way ∷ context_of op ∷ cs) op b n (some x) r s)
        (first_way ops limits cb op attrs) (Way.is_valid limits op) (λ x. cb.process_way x op b s)
        (λ s'. at (context_of op ∷ cs) op b n (some new_way) r s')
        (start_way-eq cs op b n w r s attrs) (way_children-refine (context_of op ∷ cs) op b n r s)
        (end_way-eq (context_of op ∷ cs) op b n r s) children

  pub relation-refines :
      (cs : List Context) (op : Operation) (b : Bool) (n : Option (Node D)) (w : Option Way)
      (r : Option Relation) (s : S) (attrs : Attributes) (children : Elements)
      → run ops limits cb
          (events (element "relation" attrs children))
          (at (context_of op ∷ cs) op b n w r s)
        ≡ (read_relation ops limits cb op b attrs children s >>= λ s'.
            ok (at (context_of op ∷ cs) op b n w (some new_relation) s'))
  unfolding read_relation missing_fields
  relation-refines cs op b n w r s attrs children =
      object-refines "relation" attrs (at (context_of op ∷ cs) op b n w r s) relation_child
        (λ x. at (in_relation ∷ context_of op ∷ cs) op b n w (some x) s)
        (first_relation ops limits cb op attrs) (Relation.is_valid limits op)
        (λ x. cb.process_relation x op b s)
        (λ s'. at (context_of op ∷ cs) op b n w (some new_relation) s')
        (start_relation-eq cs op b n w r s attrs)
        (relation_children-refine (context_of op ∷ cs) op b n w s)
        (end_relation-eq (context_of op ∷ cs) op b n w s) children
