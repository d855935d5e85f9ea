-- ===== src/Database.antt =====
-- The tables of the API database that the updaters read and write, without time stamps.
-- PostgreSQL runs the statements of the source on them; rows come back in the order of the table.
use openstreetmap_cgimap.Prelude.{ℕ, Bool, String, List, [], ◌∷◌, if◌then◌else◌, ◌==◌, String-Eq}
use openstreetmap_cgimap.Prelude.Int.{ℤ}

-- A row of `current_nodes` or `nodes`.
pub record NodeRow : Type 0 where
  pub id : ℕ
  pub latitude : ℤ
  pub longitude : ℤ
  pub changeset_id : ℤ
  pub visible : Bool
  pub tile : ℕ
  pub version : ℕ

-- A row of `current_node_tags`.
pub record CurrentTagRow : Type 0 where
  pub node_id : ℕ
  pub k : String
  pub v : String

-- A row of `node_tags`.
pub record TagRow : Type 0 where
  pub node_id : ℕ
  pub version : ℕ
  pub k : String
  pub v : String

-- A row of `current_ways`, `ways`, `current_relations` or `relations`.
pub record ElementRow : Type 0 where
  pub id : ℕ
  pub changeset_id : ℤ
  pub visible : Bool
  pub version : ℕ

-- A row of `current_way_tags` or `current_relation_tags`.
pub record CurrentElementTag : Type 0 where
  pub element_id : ℕ
  pub k : String
  pub v : String

-- A row of `way_tags` or `relation_tags`.
pub record ElementTag : Type 0 where
  pub element_id : ℕ
  pub version : ℕ
  pub k : String
  pub v : String

-- A row of `current_way_nodes`.
pub record CurrentWayNode : Type 0 where
  pub way_id : ℕ
  pub node_id : ℕ
  pub sequence_id : ℕ

-- A row of `way_nodes`.
pub record WayNodeRow : Type 0 where
  pub way_id : ℕ
  pub node_id : ℕ
  pub version : ℕ
  pub sequence_id : ℕ

-- A row of `current_relation_members`.
pub record CurrentMember : Type 0 where
  pub relation_id : ℕ
  pub member_type : String
  pub member_id : ℕ
  pub member_role : String
  pub sequence_id : ℕ

-- A row of `relation_members`.
pub record MemberRow : Type 0 where
  pub relation_id : ℕ
  pub member_type : String
  pub member_id : ℕ
  pub member_role : String
  pub version : ℕ
  pub sequence_id : ℕ

pub record Database : Type 0 where
  pub current_nodes : List NodeRow
  pub nodes : List NodeRow
  pub current_node_tags : List CurrentTagRow
  pub node_tags : List TagRow
  pub current_ways : List ElementRow
  pub ways : List ElementRow
  pub current_way_tags : List CurrentElementTag
  pub way_tags : List ElementTag
  pub current_way_nodes : List CurrentWayNode
  pub way_nodes : List WayNodeRow
  pub current_relations : List ElementRow
  pub relations : List ElementRow
  pub current_relation_tags : List CurrentElementTag
  pub relation_tags : List ElementTag
  pub current_relation_members : List CurrentMember
  pub relation_members : List MemberRow
  -- the next values of the sequences
  pub current_nodes_id_seq : ℕ
  pub current_ways_id_seq : ℕ
  pub current_relations_id_seq : ℕ

-- The column member_id, for the rows with a member_type.
unfoldable pub member_ids : String → List CurrentMember → List ℕ
member_ids type [] = []
member_ids type (m ∷ ms) =
    if m.member_type == type then m.member_id ∷ member_ids type ms else member_ids type ms
