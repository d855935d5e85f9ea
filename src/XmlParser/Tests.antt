-- ===== src/XmlParser/Tests.antt =====
-- A concrete document.
use openstreetmap_cgimap.XmlParser.Valid.{IsKept, process_message-keeps}
use openstreetmap_cgimap.OsmObject.Node.{node_is_valid_iff}
use openstreetmap_cgimap.OsmObject.Way.{way_is_valid_iff}
use openstreetmap_cgimap.OsmObject.Relation.{relation_is_valid_iff}
use openstreetmap_cgimap.StdMap.{is_some}
use openstreetmap_cgimap.Types.{ok-injective, err}
use openstreetmap_cgimap.Prelude.{All, true, refl}
use openstreetmap_cgimap.Prelude.{
  String, ◌≡◌, refl, true, Option, none, some, List, [], ◌∷◌, ◌++◌, ℕ-Eq, String-Eq,
}
use openstreetmap_cgimap.Prelude.Int.{ℤ, pos, negsuc, ◌+ℤ◌, ◌*ℤ◌, ltb_ℤ, ℤ-Eq}
use openstreetmap_cgimap.Types.{
  Result, ok, ◌>>=◌, Operation, op_create, op_modify, ObjectType-Eq, Pair-Eq,
}
use openstreetmap_cgimap.Double.{DoubleOps}
use openstreetmap_cgimap.Number.{from_chars_int64}
use openstreetmap_cgimap.Prelude.Text.{codes}
use openstreetmap_cgimap.OsmObject.{Limits}
use openstreetmap_cgimap.XmlParser.{ParserCallback, new_parser, Event, Context, XmlParser}
use openstreetmap_cgimap.XmlParser.Events.{process_message}
use openstreetmap_cgimap.XmlParser.Reader.{
  Element, element, no_elements, more, events, read_document,
}
use openstreetmap_cgimap.XmlParser.Refines.{
  process_message-read_document, outcome, outside_of_elements,
}

abbrev limits : Limits
limits = record { element_max_tags = some 2; way_max_nodes = 2; relation_max_members = some 1 }

-- Whole numbers in place of doubles. Nothing here divides.
abbrev whole_numbers : DoubleOps ℤ
whole_numbers = record {
  lit = λ z. z;
  add = λ a b. a +ℤ b;
  mul = λ a b. a *ℤ b;
  div = λ a b. a;
  lt = ltb_ℤ;
  is_finite = λ _. true;
  round = λ z. z;
  from_chars = λ s. from_chars_int64 (codes s);
}

abbrev Passed : Type 0
Passed = List (Operation × Option ℤ)

-- A callback that notes what it is given.
abbrev notes : ParserCallback ℤ Passed
notes = record {
  start_document = λ s. ok s;
  end_document = λ s. ok s;
  process_node = λ n op b s. ok (s ++ (op, n.base.m_id) ∷ []);
  process_way = λ w op b s. ok (s ++ (op, w.base.m_id) ∷ []);
  process_relation = λ r op b s. ok (s ++ (op, r.base.m_id) ∷ []);
}

abbrev a_tag : Element
a_tag = element "tag" (("k", "name") ∷ ("v", "x") ∷ []) no_elements

abbrev created : Element
created = element "create" [] (
    more
      (element "node" (("id", "-1") ∷ ("changeset", "1") ∷ ("lat", "10") ∷ ("lon", "20") ∷ [])
        (more a_tag no_elements))
      no_elements)

abbrev modified : Element
modified = element "modify" [] (
    more
      (element "way" (("id", "2") ∷ ("changeset", "1") ∷ ("version", "3") ∷ [])
        (more (element "nd" (("ref", "-1") ∷ []) no_elements) no_elements))
      no_elements)

abbrev doc : Element
doc = element "osmChange" [] (more created (more modified no_elements))

abbrev parse_memory : String → List Event × Option String
parse_memory _ = (events doc, none)

start : XmlParser ℤ Passed
start = new_parser []

abbrev where_and_what : XmlParser ℤ Passed → Result (List Context × Passed)
where_and_what p = outcome whole_numbers limits notes p

process_message-read_document_example :
    (process_message whole_numbers limits notes parse_memory "" (new_parser []) >>= where_and_what)
    ≡ (read_document whole_numbers limits notes doc []
        >>= outside_of_elements whole_numbers limits notes)
process_message-read_document_example =
    process_message-read_document whole_numbers limits notes parse_memory "" doc [] refl

passed :
    read_document whole_numbers limits notes doc []
    ≡ ok ((op_create, some (negsuc 0)) ∷ (op_modify, some (pos 2)) ∷ [])
unfolding read_document
passed = refl

-- Every object that was passed on has an id.
abbrev HaveIds : Passed → Type 0
HaveIds s = All (λ x. is_some x.1 ≡ true) s

HaveIds-snoc :
    (s : Passed) (op : Operation) (id : Option ℤ)
    → HaveIds s
    → is_some id ≡ true
    → HaveIds (s ++ (op, id) ∷ [])
HaveIds-snoc [] op id held new = (new, tt)
HaveIds-snoc (x ∷ s) op id held new = (held.0, HaveIds-snoc s op id held.1 new)

notes-IsKept : IsKept whole_numbers limits notes HaveIds
notes-IsKept = record {
  start_keeps = λ s s' held h. rw (← ok-injective h) held;
  end_keeps = λ s s' held h. rw (← ok-injective h) held;
  node_keeps = λ n op b s s' valid fits held h.
      rw (← ok-injective h)
        (HaveIds-snoc s op n.base.m_id held ((node_is_valid_iff limits op n).0 valid).0.id_set);
  way_keeps = λ w op b s s' valid fits held h.
      rw (← ok-injective h)
        (HaveIds-snoc s op w.base.m_id held ((way_is_valid_iff limits op w).0 valid).0.id_set);
  relation_keeps = λ r op b s s' valid fits held h.
      rw (← ok-injective h)
        (HaveIds-snoc s op r.base.m_id held ((relation_is_valid_iff limits op r).0 valid).0.id_set);
}

abbrev or_start : Result (XmlParser ℤ Passed) → XmlParser ℤ Passed
or_start (ok p) = p
or_start (err e) = new_parser []

abbrev parser_after : XmlParser ℤ Passed
unfolding process_message
parser_after = or_start (process_message whole_numbers limits notes parse_memory "" (new_parser []))

parsed_document :
    process_message whole_numbers limits notes parse_memory "" (new_parser []) ≡ ok parser_after
unfolding process_message events
parsed_document = refl

process_message-keeps_example : HaveIds parser_after.m_callback
process_message-keeps_example =
    process_message-keeps whole_numbers limits notes HaveIds notes-IsKept parse_memory "" doc []
      parser_after refl tt parsed_document
