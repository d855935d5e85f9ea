-- ===== src/XmlParser/Nesting.antt =====
-- What the parser of include/cgimap/api06/changeset_upload/osmchange_xml_input_format.hpp does for
-- an element and the elements within it.
use openstreetmap_cgimap.Prelude.{
  String, ◌≡◌, refl, ap, ◌∙◌, inl, inr, Bool, Option, List, [], ◌∷◌, ◌++◌, arith, ℕ-Eq, String-Eq,
}
use openstreetmap_cgimap.Prelude.Int.{ℤ-Eq}
use openstreetmap_cgimap.Types.{
  Result, ok, err, ◌>>=◌, Result-cases, >>=-cong, Operation, op_modify, op_delete, ObjectType-Eq,
  Pair-Eq,
}
use openstreetmap_cgimap.Double.{DoubleOps}
use openstreetmap_cgimap.OsmObject.{Limits}
use openstreetmap_cgimap.OsmObject.Node.{Node}
use openstreetmap_cgimap.OsmObject.Way.{Way}
use openstreetmap_cgimap.OsmObject.Relation.{Relation}
use openstreetmap_cgimap.XmlParser.{
  Attributes, Context, in_create, in_modify, in_delete, in_object, ParserCallback, XmlParser, Event,
  end_element,
}
use openstreetmap_cgimap.XmlParser.Events.{on_events, on_event, on_start_element, on_end_element}
use openstreetmap_cgimap.XmlParser.Reader.{
  Elements, element, no_elements, more, events, events_all, no_children, read_children,
}

-- A parser state by its parts.
abbrev pub at :
    {D S : Type 0}
    → List Context
    → Operation
    → Bool
    → Option (Node D)
    → Option Way
    → Option Relation
    → S
    → XmlParser D S
at cs op b n w r s = record {
  m_operation = op;
  m_context = cs;
  m_callback = s;
  m_node = n;
  m_way = w;
  m_relation = r;
  m_if_unused = b;
}

-- The context of the elements create, modify and delete.
abbrev pub context_of : Operation → Context
context_of op_modify = in_modify
context_of op_delete = in_delete
context_of _ = in_create

-- The parser and the reader have the same error, or the parser is in the given context and has
-- the state of the callback that the reader gives.
unfoldable pub Agrees :
    {D S : Type 0} → List Context → Operation → Bool → Result (XmlParser D S) → Result S → Type 0
Agrees {D} cs op b (ok p) (ok s) =
    (n : Option (Node D)) × (w : Option Way) × (r : Option Relation) × (p ≡ at cs op b n w r s)
Agrees cs op b (err e) (err e') = e ≡ e'
Agrees cs op b _ _ = ⊥

module _ {D S : Type 0} where
  pub Agrees-bind :
      (cs cs' : List Context) (op op' : Operation) (b b' : Bool) (m : Result (XmlParser D S))
      (m' : Result S) (f : XmlParser D S → Result (XmlParser D S)) (g : S → Result S)
      → Agrees cs op b m m'
      → ((n : Option (Node D)) (w : Option Way) (r : Option Relation) (s : S)
          → Agrees cs' op' b' (f (at cs op b n w r s)) (g s))
      → Agrees cs' op' b' (m >>= f) (m' >>= g)
  unfolding Agrees
  Agrees-bind cs cs' op op' b b' (ok p) (ok s) f g (n, w, r, e) h = rw e (h n w r s)
  Agrees-bind cs cs' op op' b b' (err x) (err y) f g e h = e
  Agrees-bind cs cs' op op' b b' _ _ f g e h = ground arith

  pub Agrees-eq :
      (cs : List Context) (op : Operation) (b : Bool) {m m' : Result (XmlParser D S)}
      {r r' : Result S}
      → m ≡ m'
      → r ≡ r'
      → Agrees cs op b m' r'
      → Agrees cs op b m r
  Agrees-eq cs op b h h' a = rw (h, h') a

module _ {D S : Type 0} (ops : DoubleOps D) (limits : Limits) (cb : ParserCallback D S) where
  abbrev pub run : List Event → XmlParser D S → Result (XmlParser D S)
  unfolding on_events
  run es p = on_events ops limits cb es p

  pub on_events-append :
      (es fs : List Event) (p : XmlParser D S) → run (es ++ fs) p ≡ (run es p >>= run fs)
  unfolding on_events
  on_events-append [] fs p = refl
  on_events-append (e ∷ es) fs p = elim (Result-cases (on_event ops limits cb e p)) [
    | inl (p', h) ↦ simp (h, on_events-append es fs p')
    | inr (x, h) ↦ simp h
  ]

  on_events_one : (e : Event) (p : XmlParser D S) → run (e ∷ []) p ≡ on_event ops limits cb e p
  unfolding on_events
  on_events_one e p = elim (Result-cases (on_event ops limits cb e p)) [
    | inl (q, h) ↦ simp h
    | inr (x, h) ↦ simp h
  ]

  pub element-events :
      (name : String) (attrs : Attributes) (children : Elements) (p : XmlParser D S)
      → run (events (element name attrs children)) p ≡ (
          on_start_element ops limits cb name attrs p
          >>= run (events_all children)
          >>= on_end_element ops limits cb name)
  unfolding on_events on_event events
  element-events name attrs children p =
      elim (Result-cases (on_start_element ops limits cb name attrs p)) [
        | inl (q, h) ↦ simp h (
            on_events-append (events_all children) (end_element name ∷ []) q
            ∙ >>=-cong (run (events_all children) q) (on_events_one (end_element name)))
        | inr (x, h) ↦ simp h
      ]

  -- Elements within an element of an object.
  pub no_children-refines :
      (children : Elements) (cs : List Context) (op : Operation) (b : Bool) (n : Option (Node D))
      (w : Option Way) (r : Option Relation) (s : S)
      → run (events_all children) (at (in_object ∷ cs) op b n w r s)
        ≡ (no_children children >>= λ _. ok (at (in_object ∷ cs) op b n w r s))
  unfolding on_events on_event on_start_element events
  no_children-refines no_elements cs op b n w r s = refl
  no_children-refines (more (element name attrs children) es) cs op b n w r s = refl

  -- The elements of an object: `state` is the parser's state with the pending object, `inner` the
  -- one within an element of the object.
  module _ {ℓ} {A : Type ℓ} (f : String → Attributes → A → Result A)
      (state inner : A → XmlParser D S)
      (start : (name : String) (attrs : Attributes) (a : A)
        → on_start_element ops limits cb name attrs (state a)
          ≡ (f name attrs a >>= λ a'. ok (inner a')))
      (within : (children : Elements) (a : A)
        → run (events_all children) (inner a) ≡ (no_children children >>= λ _. ok (inner a)))
      (end_ : (name : String) (a : A)
        → on_end_element ops limits cb name (inner a) ≡ ok (state a)) where
    child-refines :
        (name : String) (attrs : Attributes) (children : Elements) (a : A)
        → run (events (element name attrs children)) (state a)
          ≡ (f name attrs a >>= λ a'. no_children children >>= λ _. ok (state a'))
    child-refines name attrs children a =
        element-events name attrs children (state a) ∙ (elim (Result-cases (f name attrs a)) [
          | inl (a', h) ↦ elim (Result-cases (no_children children)) [
            | inl (u, g) ↦ simp (start name attrs a, h, within children a', g, end_ name a')
            | inr (x, g) ↦ simp (start name attrs a, h, within children a', g)
          ]
          | inr (x, h) ↦ simp (start name attrs a, h)
        ])

    pub children-refine :
        (es : Elements) (a : A)
        → run (events_all es) (state a) ≡ (read_children f es a >>= λ a'. ok (state a'))
    unfolding events read_children on_events
    children-refine no_elements a = refl
    children-refine (more (element name attrs children) es) a =
        on_events-append (events (element name attrs children)) (events_all es) (state a)
        ∙ ap (λ m. m >>= run (events_all es)) (child-refines name attrs children a)
        ∙ (elim (Result-cases (f name attrs a)) [
          | inl (a', h) ↦ elim (Result-cases (no_children children)) [
            | inl (u, g) ↦ simp (h, g, children-refine es a')
            | inr (x, g) ↦ simp (h, g)
          ]
          | inr (x, h) ↦ simp h
        ])
