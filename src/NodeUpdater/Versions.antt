-- ===== src/NodeUpdater/Versions.antt =====
-- Modifications are serialised: every one names the version that it replaces, and raises it by one.
use openstreetmap_cgimap.NodeUpdater.Process.{process_package}
use openstreetmap_cgimap.NodeUpdater.Reference.{
  save_current_node_tags_to_history, delete_current_node_tags, insert_new_current_node_tags,
  save_current_nodes_to_history,
}
use openstreetmap_cgimap.NodeUpdater.{NodeUpdater, NodeT}
use openstreetmap_cgimap.Database.{NodeRow}
use openstreetmap_cgimap.NodeUpdater.Tables.{
  update_current_nodes, ids_of, set_modified, mem_id, matching_node, check_current_node_versions,
  update_rows, has_other_version,
}
use openstreetmap_cgimap.Prelude.{
  ◌∙◌, sym, ap, ℕ, ◌+◌, ◌≡◌, refl, Bool, true, not, ◌&&◌, Option, none, some, List, [], ◌∷◌, arith,
  eqb, if◌then◌else◌, ℕ-Eq, String-Eq,
}
use openstreetmap_cgimap.Prelude.Int.{ℤ-Eq}
use openstreetmap_cgimap.Types.{>>=-eq-ok, ok-injective, ok, ObjectType-Eq, Pair-Eq}

-- The version of a node in `current_nodes`.
abbrev pub version_of : ℕ → List NodeRow → Option ℕ
version_of i [] = none
version_of i (r ∷ rs) = if eqb r.id i then some r.version else version_of i rs

abbrev pub agrees : NodeT → NodeRow → Bool
agrees n r = not (eqb n.id r.id && not (eqb n.version r.version))

abbrev pub agrees_all : List NodeT → NodeRow → Bool
agrees_all [] r = true
agrees_all (n ∷ ns) r = agrees n r && agrees_all ns r

unfoldable pub all_agree : List NodeT → List NodeRow → Bool
all_agree ns [] = true
all_agree ns (r ∷ rs) = agrees_all ns r && all_agree ns rs

all_agree-nil : (rs : List NodeRow) → all_agree [] rs ≡ true
unfolding all_agree
all_agree-nil [] = refl
all_agree-nil (r ∷ rs) = all_agree-nil rs

all_agree-cons :
    (n : NodeT) (ns : List NodeT) (rs : List NodeRow)
    → all_agree (n ∷ ns) rs ≡ (not (has_other_version n rs) && all_agree ns rs)
unfolding all_agree has_other_version
all_agree-cons n ns [] = refl
all_agree-cons n ns (r ∷ rs) = ground (arith, all_agree-cons n ns rs)

check-all_agree :
    (ns : List NodeT) (s : NodeUpdater)
    → check_current_node_versions ns s ≡ ok tt
    → all_agree ns s.db.current_nodes ≡ true
unfolding check_current_node_versions
check-all_agree [] s h = all_agree-nil s.db.current_nodes
check-all_agree (n ∷ ns) s h =
    ground (arith, all_agree-cons n ns s.db.current_nodes, check-all_agree ns s)

matching_node-agrees :
    (r : NodeRow) (ns : List NodeT)
    → agrees_all ns r ≡ true
    → (elim (matching_node r ns) [ none ↦ r.version | some n ↦ n.version + 1 ])
      ≡ (if mem_id r.id (ids_of ns) then r.version + 1 else r.version)
unfolding matching_node
matching_node-agrees r [] h = refl
matching_node-agrees r (n ∷ ns) h = ground (arith, matching_node-agrees r ns)

-- The version that is one higher, if the node is among those changed.
abbrev pub raised : Bool → Option ℕ → Option ℕ
raised b none = none
raised b (some v) = some (if b then v + 1 else v)

pub version_of-update_rows :
    (i : ℕ) (ns : List NodeT) (rs : List NodeRow)
    → all_agree ns rs ≡ true
    → version_of i (update_rows set_modified ns rs)
      ≡ raised (mem_id i (ids_of ns)) (version_of i rs)
unfolding update_rows all_agree
version_of-update_rows i ns [] h = refl
version_of-update_rows i ns (r ∷ rs) h =
    ground (arith, version_of-update_rows i ns rs, matching_node-agrees r ns)

update_rows-nil : (set : NodeT → NodeRow → NodeRow) (rs : List NodeRow) → update_rows set [] rs ≡ rs
unfolding update_rows matching_node
update_rows-nil set [] = refl
update_rows-nil set (r ∷ rs) = rw (update_rows-nil set rs)

rows-update_current_nodes :
    (ns : List NodeT) (s : NodeUpdater) {s' : NodeUpdater}
    → update_current_nodes ns s ≡ ok s'
    → s'.db.current_nodes ≡ update_rows set_modified ns s.db.current_nodes
unfolding update_current_nodes
rows-update_current_nodes [] s h =
    rw update_rows-nil (cc (ap (λ (t : NodeUpdater). t.db.current_nodes) (ok-injective h)))
rows-update_current_nodes (n ∷ ns) s h = ground arith

rows-save_current_nodes_to_history :
    (ids : List ℕ) (s : NodeUpdater) {s' : NodeUpdater}
    → save_current_nodes_to_history ids s ≡ ok s'
    → s'.db.current_nodes ≡ s.db.current_nodes
unfolding save_current_nodes_to_history
rows-save_current_nodes_to_history ids s h = ground arith

rows-insert_new_current_node_tags :
    (ns : List NodeT) (s : NodeUpdater)
    → (insert_new_current_node_tags ns s).0.db.current_nodes ≡ s.db.current_nodes
unfolding insert_new_current_node_tags
rows-insert_new_current_node_tags ns s = refl

-- One pack: the check of the versions has passed, and the rows are updated.
pub process_package-eq-ok :
    (p : List NodeT) (s : NodeUpdater) {s' : NodeUpdater}
    → process_package p s ≡ ok s'
    → (all_agree p s.db.current_nodes ≡ true)
      × (s'.db.current_nodes ≡ update_rows set_modified p s.db.current_nodes)
unfolding process_package delete_current_node_tags save_current_node_tags_to_history
process_package-eq-ok p s h =
    let (u, checked, h1) = >>=-eq-ok (check_current_node_versions p s) _ h in
    let (s1, updated, h2) = >>=-eq-ok (update_current_nodes p _) _ h1 in
    let (s3, saved, h3) = >>=-eq-ok (save_current_nodes_to_history _ _) _ h2 in
    (
      check-all_agree p s checked,
      ap (λ (t : NodeUpdater). t.db.current_nodes) (sym (ok-injective h3))
          ∙ rows-save_current_nodes_to_history _ _ saved
          ∙ rows-insert_new_current_node_tags p s1
          ∙ rows-update_current_nodes p _ updated,
    )
