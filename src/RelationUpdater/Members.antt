-- ===== src/RelationUpdater/Members.antt =====
-- relation_updater.cpp: the members of relations, which have to be visible, and their tables.
use openstreetmap_cgimap.NodeUpdater.Tables.{mem_id, unique_ids}
use openstreetmap_cgimap.Prelude.{
  ℕ, String, List, [], ◌∷◌, ◌++◌, eqb, if◌then◌else◌, ◌==◌, ℕ-Eq, String-Eq,
}
use openstreetmap_cgimap.Prelude.Int.{ℤ-Eq}
use openstreetmap_cgimap.Types.{precondition_failed, Result, ◌>>◌, ObjectType-Eq, Pair-Eq}
use openstreetmap_cgimap.Element.{missing_from, none_missing, visible_ids}
use openstreetmap_cgimap.WayUpdater.Tables.{visible_node_ids}
use openstreetmap_cgimap.RelationUpdater.{MemberT, RelationT, RelationUpdater}
use openstreetmap_cgimap.Database.{ElementRow, CurrentMember, MemberRow}

-- The ids of the members of a type.
unfoldable pub ids_of_type : String → List MemberT → List ℕ
ids_of_type type [] = []
ids_of_type type (mbr ∷ mbrs) =
    if mbr.member_type == type then mbr.member_id ∷ ids_of_type type mbrs else ids_of_type type mbrs

-- The loops of `lock_future_members` that collect ids.
unfoldable pub future_member_ids : String → List RelationT → List ℕ
unfolding ids_of_type
future_member_ids type [] = []
future_member_ids type (x ∷ relations) =
    ids_of_type type x.members ++ future_member_ids type relations

unfoldable pub lock_future_members_nodes : List ℕ → RelationUpdater → Result (Unit {0})
unfolding missing_from visible_node_ids unique_ids
lock_future_members_nodes node_ids s =
    none_missing
      (precondition_failed
        "Relation {:d} requires the nodes with id in {}, which either do not exist, or are not visible.")
      (missing_from (unique_ids node_ids) (visible_node_ids s.db.current_nodes))

unfoldable pub lock_future_members_ways : List ℕ → RelationUpdater → Result (Unit {0})
unfolding missing_from visible_ids unique_ids
lock_future_members_ways way_ids s =
    none_missing
      (precondition_failed
        "Relation {:d} requires the ways with id in {}, which either do not exist, or are not visible.")
      (missing_from (unique_ids way_ids) (visible_ids s.db.current_ways))

unfoldable pub lock_future_members_relations : List ℕ → RelationUpdater → Result (Unit {0})
unfolding missing_from visible_ids unique_ids
lock_future_members_relations relation_ids s =
    none_missing
      (precondition_failed
        "Relation {:d} requires the relations with id in {}, which either do not exist, or are not visible.")
      (missing_from (unique_ids relation_ids) (visible_ids s.db.current_relations))

unfoldable pub lock_future_members : List RelationT → List ℕ → RelationUpdater → Result (Unit {0})
unfolding future_member_ids missing_from lock_future_members_nodes lock_future_members_ways
    lock_future_members_relations
lock_future_members relations already_locked_relations s = do
  lock_future_members_nodes (future_member_ids "Node" relations) s
  lock_future_members_ways (future_member_ids "Way" relations) s
  lock_future_members_relations
      (missing_from (future_member_ids "Relation" relations) already_locked_relations) s

-- The rows of the members of one relation.
unfoldable pub member_rows : ℕ → List MemberT → List CurrentMember
member_rows i [] = []
member_rows i (mbr ∷ mbrs) =
    record {
      relation_id = i;
      member_type = mbr.member_type;
      member_id = mbr.member_id;
      member_role = mbr.member_role;
      sequence_id = mbr.sequence_id;
    }
    ∷ member_rows i mbrs

unfoldable pub all_member_rows : List RelationT → List CurrentMember
unfolding member_rows
all_member_rows [] = []
all_member_rows (x ∷ relations) = member_rows x.id x.members ++ all_member_rows relations

unfoldable pub insert_new_current_relation_members :
    List RelationT → RelationUpdater → RelationUpdater
unfolding all_member_rows
insert_new_current_relation_members relations s = record s {
  db = record (s.db) {
    current_relation_members = s.db.current_relation_members ++ all_member_rows relations;
  };
}

-- The join of a member with the table of the relations.
unfoldable pub versions_of_member : CurrentMember → List ElementRow → List MemberRow
versions_of_member mbr [] = []
versions_of_member mbr (r ∷ rs) =
    if eqb mbr.relation_id r.id
    then record {
      relation_id = mbr.relation_id;
      member_type = mbr.member_type;
      member_id = mbr.member_id;
      member_role = mbr.member_role;
      version = r.version;
      sequence_id = mbr.sequence_id;
    }
      ∷ versions_of_member mbr rs
    else versions_of_member mbr rs

unfoldable pub history_members : List ℕ → List ElementRow → List CurrentMember → List MemberRow
unfolding versions_of_member
history_members ids rows [] = []
history_members ids rows (mbr ∷ mbrs) =
    if mem_id mbr.relation_id ids
    then versions_of_member mbr rows ++ history_members ids rows mbrs
    else history_members ids rows mbrs

unfoldable pub save_current_relation_members_to_history : List ℕ → RelationUpdater → RelationUpdater
unfolding history_members
save_current_relation_members_to_history ids s = record s {
  db = record (s.db) {
    relation_members =
        s.db.relation_members
        ++ history_members ids s.db.current_relations s.db.current_relation_members;
  };
}

-- `DELETE FROM current_relation_members WHERE relation_id = ANY($1)`
unfoldable pub without_members : List ℕ → List CurrentMember → List CurrentMember
without_members ids [] = []
without_members ids (mbr ∷ mbrs) =
    if mem_id mbr.relation_id ids then without_members ids mbrs else mbr ∷ without_members ids mbrs

unfoldable pub delete_current_relation_members : List ℕ → RelationUpdater → RelationUpdater
unfolding without_members
delete_current_relation_members ids s = record s {
  db = record (s.db) {
    current_relation_members = without_members ids s.db.current_relation_members;
  };
}
