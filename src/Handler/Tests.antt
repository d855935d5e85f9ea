-- ===== src/Handler/Tests.antt =====
-- The calls of the updaters for a concrete upload.
use openstreetmap_cgimap.Handler.Batches.{process_all-process_groups}
use openstreetmap_cgimap.Handler.Changes.{
  Object, a_node, a_way, Change, groups, process_all, process_groups, IsAdmitted, put_all,
  put_in_buffer,
}
use openstreetmap_cgimap.Handler.{process_buffers}
use openstreetmap_cgimap.Prelude.{
  String, ◌≡◌, refl, false, some, List, [], ◌∷◌, ◌++◌, arith, ℕ-Eq, String-Eq, All,
}
use openstreetmap_cgimap.Prelude.Int.{ℤ, pos, negsuc, ℤ-Eq}
use openstreetmap_cgimap.Types.{Result, ok, ◌>>=◌, op_create, op_modify, ObjectType-Eq, Pair-Eq}
use openstreetmap_cgimap.Bbox.{undefined_bbox}
use openstreetmap_cgimap.OsmObject.{OsmObject}
use openstreetmap_cgimap.Handler.{Updaters, st_initial, st_finished, end_document}

-- Updaters that note the name of every call.
abbrev call : String → List String → Result (List String)
call name s = ok (s ++ name ∷ [])

abbrev names : Updaters ℤ (List String)
names = record {
  add_node = λ _ _ _ _ _. call "add_node";
  modify_node = λ _ _ _ _ _ _. call "modify_node";
  delete_node = λ _ _ _ _. call "delete_node";
  process_new_nodes = call "process_new_nodes";
  process_modify_nodes = call "process_modify_nodes";
  process_delete_nodes = call "process_delete_nodes";
  add_way = λ _ _ _ _. call "add_way";
  modify_way = λ _ _ _ _ _. call "modify_way";
  delete_way = λ _ _ _ _. call "delete_way";
  process_new_ways = call "process_new_ways";
  process_modify_ways = call "process_modify_ways";
  process_delete_ways = call "process_delete_ways";
  add_relation = λ _ _ _ _. call "add_relation";
  modify_relation = λ _ _ _ _ _. call "modify_relation";
  delete_relation = λ _ _ _ _. call "delete_relation";
  process_new_relations = call "process_new_relations";
  process_modify_relations = call "process_modify_relations";
  process_delete_relations = call "process_delete_relations";
  node_bbox = λ _. undefined_bbox;
  way_bbox = λ _. undefined_bbox;
  relation_bbox = λ _. undefined_bbox;
}

abbrev some_object : OsmObject
some_object = record {
  m_changeset = some (pos 1);
  m_id = some (negsuc 0);
  m_version = some 1;
  m_tags = [];
}

abbrev some_node : Object ℤ
some_node = a_node (record { base = some_object; m_lat = some (pos 1); m_lon = some (pos 2) })

abbrev some_way : Object ℤ
some_way = a_way (record { base = some_object; m_way_nodes = pos 5 ∷ [] })

abbrev changes : List (Change ℤ)
changes =
    record { object = some_node; op = op_create; if_unused = false }
    ∷ record { object = some_node; op = op_create; if_unused = false }
    ∷ record { object = some_way; op = op_modify; if_unused = false }
    ∷ record { object = some_node; op = op_modify; if_unused = false }
    ∷ []

calls :
    process_groups names (pos 1) (groups changes) []
    ≡ ok (
        "add_node" ∷ "add_node" ∷ "process_new_nodes" ∷ "modify_way" ∷ "modify_node"
        ∷ "process_modify_nodes" ∷ "process_modify_ways" ∷ "process_modify_relations" ∷ [])
unfolding process_groups groups put_all put_in_buffer process_buffers
calls = refl

changes-IsAdmitted : All (IsAdmitted (pos 1)) changes
changes-IsAdmitted = ground arith

process_all-process_groups_example :
    (process_all names (pos 1) changes (record { current_state = st_initial; updaters = [] })
      >>= end_document names)
    ≡ (process_groups names (pos 1) (groups changes) [] >>= λ s'.
        ok (record { current_state = st_finished; updaters = s' }))
process_all-process_groups_example =
    process_all-process_groups names (pos 1) changes [] changes-IsAdmitted
