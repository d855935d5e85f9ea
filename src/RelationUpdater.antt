-- ===== src/RelationUpdater.antt =====
-- src/backend/apidb/changeset_upload/relation_updater.cpp: the buffers of created, modified and
-- deleted relations, and how they are filled.
pub mod Placeholders
pub mod Tables
pub mod Members
pub mod Changes
pub mod Children
pub mod Descent
pub mod Serial
pub mod Unused
pub mod Integrity
mod Tests
pub mod Reference
pub mod Process
use openstreetmap_cgimap.Prelude.{
  ℕ, zero, suc, ◌+◌, ◌-◌, ◌*◌, ◌/◌, ◌%◌, ◌^◌, ◌≤◌, ◌<◌, String, ◌≡◌, refl, sym, ap, ap₂, ◌∙◌, ◌≢◌,
  ◌↔◌, ◌⊎◌, inl, inr, Bool, true, false, not, ◌&&◌, ◌||◌, Option, none, some, List, [], ◌∷◌, ◌++◌,
  map, arith, ltb, leb, eqb, if◌then◌else◌, eqb_iff, Eq, ◌==◌, ==_refl, ℕ-Eq, String-Eq, Bool-cases,
  Option-cases, length, get_elem?, length-append, All, Any, List-cases, get_or, to_list,
  get_elem?-append, get_elem?-none, get_or-append, get_or_default,
}
use openstreetmap_cgimap.Prelude.Int.{
  ℤ, pos, negsuc, pos_part, neg_part, ◌+ℤ◌, ◌-ℤ◌, ◌*ℤ◌, ◌≤ℤ◌, ltb_ℤ, eqb_ℤ, eqb_ℤ_iff, ℤ-Eq,
  int_laws, IsInt64, to_uint64, to_int64, to_int64-to_uint64,
}
use openstreetmap_cgimap.StdMap.{
  StdMap, find, contains, insert, assign, insert_all, find-insert, find-assign, find-insert_all,
  find_first, find_first_key, is_some, find_first_iff,
}
use openstreetmap_cgimap.Types.{
  Error, bad_request, payload_error, not_found, conflict, gone, precondition_failed, server_error,
  runtime_error, assertion_failed, Result, ok, err, ◌>>=◌, ◌>>◌, guard, >>=-eq-ok, ok-injective,
  Result-cases, >>=-assoc, >>=-ok, >>=-cong, is_ok, Operation, op_undefined, op_create, op_modify,
  op_delete, ObjectType, node, way, relation, ObjectKey, EditionKey, ObjectType-Eq, Pair-Eq,
}
use openstreetmap_cgimap.Element.{ItemT}
use openstreetmap_cgimap.Bbox.{BboxT}
use openstreetmap_cgimap.Tracking.{OsmChangeTracking}
use openstreetmap_cgimap.Database.{Database}
use openstreetmap_cgimap.OsmObject.Relation.{RelationMember}

-- struct member_t
pub record MemberT : Type 0 where
  pub member_type : String
  pub member_id : ℕ
  pub member_role : String
  pub sequence_id : ℕ
  pub old_member_id : ℤ

-- struct relation_t
abbrev pub RelationT : Type 0
RelationT = ItemT MemberT

-- class ApiDB_Relation_Updater, with the tracking object and the database that it refers to.
pub record RelationUpdater : Type 0 where
  pub db : Database
  pub ct : OsmChangeTracking
  pub m_bbox : BboxT
  pub create_relations : List RelationT
  pub modify_relations : List RelationT
  pub delete_relations : List RelationT
  pub create_placeholder_ids : StdMap ℤ (Unit {0})

-- `ct.osmchange_orig_sequence.emplace_back(…)`
abbrev pub record_change : OsmChangeTracking → Operation → RelationT → Bool → OsmChangeTracking
record_change ct op r if_unused = record ct {
  osmchange_orig_sequence =
      ct.osmchange_orig_sequence
      ++ record {
        op = op;
        obj_type = relation;
        orig_id = r.old_id;
        orig_version = r.version;
        if_unused = if_unused;
      }
        ∷ [];
}

-- `*m_ref` and `*m_type` of an optional
abbrev pub has_value {ℓ} : {A : Type ℓ} → Option A → Result A
has_value none = err (assertion_failed "has_value()")
has_value (some a) = ok a

-- The loop over the members; `member_seq` counts the ones before.
unfoldable pub members_from : ℕ → List RelationMember → Result (List MemberT)
unfolding to_uint64
members_from member_seq [] = ok []
members_from member_seq (m ∷ ms) = do
  type ← has_value m.m_type
  ref ← has_value m.m_ref
  rest ← members_from (member_seq + 1) ms
  ok (
      record {
        member_type = type;
        member_id = if ltb_ℤ ref (pos 0) then 0 else to_uint64 ref;
        member_role = m.m_role;
        sequence_id = member_seq + 1;
        old_member_id = ref;
      }
      ∷ rest)

unfoldable pub add_relation :
    ℤ → ℤ → List RelationMember → List (String × String) → RelationUpdater → Result RelationUpdater
unfolding members_from
add_relation changeset_id old_id members tags s = do
  guard (ltb_ℤ old_id (pos 0))
      (bad_request "Placeholder IDs must be negative for created elements.")
  new_members ← members_from 0 members
  let new_relation : RelationT = record {
    id = 0;
    version = 1;
    changeset_id = changeset_id;
    old_id = old_id;
    tags = tags;
    members = new_members;
    if_unused = false;
  }
  ok (record s {
    create_relations = s.create_relations ++ new_relation ∷ [];
    ct = record_change s.ct op_create new_relation false;
  })

unfoldable pub modify_relation :
    ℤ
    → ℕ
    → ℕ
    → List RelationMember
    → List (String × String)
    → RelationUpdater
    → Result RelationUpdater
unfolding members_from to_int64
modify_relation changeset_id id version members tags s = do
  new_members ← members_from 0 members
  let modified : RelationT = record {
    id = id;
    version = version;
    changeset_id = changeset_id;
    old_id = to_int64 id;
    tags = tags;
    members = new_members;
    if_unused = false;
  }
  ok (record s {
    modify_relations = s.modify_relations ++ modified ∷ [];
    ct = record_change s.ct op_modify modified false;
  })

unfoldable pub delete_relation : ℤ → ℕ → ℕ → Bool → RelationUpdater → Result RelationUpdater
unfolding to_int64
delete_relation changeset_id id version if_unused s =
    let deleted : RelationT = record {
      id = id;
      version = version;
      changeset_id = changeset_id;
      old_id = to_int64 id;
      tags = [];
      members = [];
      if_unused = if_unused;
    } in
    ok (record s {
      delete_relations = s.delete_relations ++ deleted ∷ [];
      ct = record_change s.ct op_delete deleted if_unused;
    })

-- `get_stats`: the numbers of created, modified and deleted relations.
unfoldable pub get_stats : RelationUpdater → ℕ × ℕ × ℕ
get_stats s = (
  length s.ct.created_relation_ids,
  length s.ct.modified_relation_ids,
  length s.ct.deleted_relation_ids,
)
