-- ===== src/RelationUpdater/Descent.antt =====
-- The collection of the members of relations ends, with exactly the relations below the given ones.
use openstreetmap_cgimap.NodeUpdater.Tables.{insert_id, mem_id}
use openstreetmap_cgimap.Prelude.{
  ℕ, zero, suc, ◌≤◌, ◌<◌, ◌≡◌, refl, sym, ◌∙◌, ◌↔◌, ◌⊎◌, inl, inr, Bool, true, false, not, ◌&&◌,
  ◌||◌, some, List, [], ◌∷◌, arith, eqb, if◌then◌else◌, ◌==◌, ℕ-Eq, String-Eq, Bool-cases, length,
  List-cases,
}
use openstreetmap_cgimap.Prelude.Int.{ℤ-Eq}
use openstreetmap_cgimap.Types.{ObjectType-Eq, Pair-Eq}
use openstreetmap_cgimap.Element.{row_ids}
use openstreetmap_cgimap.Element.Found.{mem_id-unique_ids, mem_id-insert_id}
use openstreetmap_cgimap.RelationUpdater.Changes.{member_ids_of}
use openstreetmap_cgimap.RelationUpdater.Children.{
  existing, child_relation_ids, insert_children, collect_loop, collect_fuel,
  collect_recursive_relation_rel_member_ids,
}
use openstreetmap_cgimap.Database.{ElementRow, CurrentMember, Database}

-- The row has the relation x as a member of p.
abbrev pub is_member_row : ℕ → ℕ → CurrentMember → Bool
is_member_row p x m = m.member_type == "Relation" && eqb m.relation_id p && eqb m.member_id x

abbrev pub any_member_row : ℕ → ℕ → List CurrentMember → Bool
any_member_row p x [] = false
any_member_row p x (m ∷ ms) = is_member_row p x m || any_member_row p x ms

-- The relation p is in the table and has the relation x as a member.
abbrev pub is_member : Database → ℕ → ℕ → Bool
is_member db p x =
    mem_id p (row_ids db.current_relations) && any_member_row p x db.current_relation_members

-- The relations below those of a list: their members, the members of those, and so on.
pub data Below (db : Database) (roots : List ℕ) : ℕ → Type 0 where
  direct : (p x : ℕ) → mem_id p roots ≡ true → is_member db p x ≡ true → Below db roots x
  deeper : (p x : ℕ) → Below db roots p → is_member db p x ≡ true → Below db roots x

mem_id-existing :
    (p : ℕ) (ids : List ℕ) (rows : List ElementRow)
    → mem_id p (existing ids rows) ≡ (mem_id p ids && mem_id p (row_ids rows))
unfolding existing
mem_id-existing p [] rows = refl
mem_id-existing p (i ∷ ids) rows = ground (arith, mem_id-existing p ids rows)

member_ids_of-row :
    (x : ℕ) (ids : List ℕ) (ms : List CurrentMember)
    → mem_id x (member_ids_of "Relation" ids ms) ≡ true
    → (p : ℕ) × (mem_id p ids ≡ true) × (any_member_row p x ms ≡ true)
unfolding member_ids_of
member_ids_of-row x ids [] h = cc
member_ids_of-row x ids (m ∷ ms) h =
    elim (Bool-cases
      (m.member_type == "Relation" && mem_id m.relation_id ids && eqb m.member_id x)) [
        | inl here ↦ (m.relation_id, ground arith, ground arith)
        | inr elsewhere ↦
            (let (p, known, below) = member_ids_of-row x ids ms (ground arith) in
              (p, known, ground arith))
      ]

pub row-member_ids_of :
    (p x : ℕ) (ids : List ℕ) (ms : List CurrentMember)
    → mem_id p ids ≡ true
    → any_member_row p x ms ≡ true
    → mem_id x (member_ids_of "Relation" ids ms) ≡ true
unfolding member_ids_of
row-member_ids_of p x ids [] known h = cc
row-member_ids_of p x ids (m ∷ ms) known h = ground (arith, row-member_ids_of p x ids ms known)

pub child-is_member :
    (x : ℕ) (ids : List ℕ) (db : Database)
    → mem_id x (child_relation_ids ids db) ≡ true
    → (p : ℕ) × (mem_id p ids ≡ true) × (is_member db p x ≡ true)
unfolding child_relation_ids
child-is_member x ids db h =
    let rows = existing ids db.current_relations in
    let (p, known, below) =
      member_ids_of-row x rows db.current_relation_members (sym (mem_id-unique_ids x _) ∙ h) in
    (
      p,
      ground (arith, mem_id-existing p ids db.current_relations),
      ground (arith, mem_id-existing p ids db.current_relations),
    )

pub is_member-child :
    (p x : ℕ) (ids : List ℕ) (db : Database)
    → mem_id p ids ≡ true
    → is_member db p x ≡ true
    → mem_id x (child_relation_ids ids db) ≡ true
unfolding child_relation_ids
is_member-child p x ids db known h =
    mem_id-unique_ids x _
    ∙ row-member_ids_of p x (existing ids db.current_relations) db.current_relation_members
        (ground (arith, mem_id-existing p ids db.current_relations)) (ground arith)

mem_id-insert_children :
    (x : ℕ) (kids transitive next : List ℕ)
    → (mem_id x (insert_children kids transitive next).0 ≡ (mem_id x transitive || mem_id x kids))
      × (mem_id x (insert_children kids transitive next).1
          ≡ (mem_id x next || mem_id x kids && not (mem_id x transitive)))
unfolding insert_children
mem_id-insert_children x [] transitive next = (ground arith, ground arith)
mem_id-insert_children x (c ∷ kids) transitive next = elim (Bool-cases (mem_id c transitive)) [
  | inl seen ↦ ground (arith, mem_id-insert_children x kids transitive next)
  | inr unseen ↦ ground (
    arith,
    mem_id-insert_children x kids (insert_id c transitive) (insert_id c next),
    mem_id-insert_id x c transitive,
    mem_id-insert_id x c next,
  )
]

-- The rows whose member is not found yet.
abbrev missing_rows : List ℕ → List CurrentMember → ℕ
missing_rows found [] = 0
missing_rows found (m ∷ ms) =
    if mem_id m.member_id found then missing_rows found ms else suc (missing_rows found ms)

missing_rows-le :
    (found found' : List ℕ) (ms : List CurrentMember)
    → ((x : ℕ) → mem_id x found ≡ true → mem_id x found' ≡ true)
    → missing_rows found' ms ≤ missing_rows found ms
missing_rows-le found found' [] more = omega arith
missing_rows-le found found' (m ∷ ms) more =
    ground (arith, missing_rows-le found found' ms more, more m.member_id)

missing_rows-length : (found : List ℕ) (ms : List CurrentMember) → missing_rows found ms ≤ length ms
missing_rows-length found [] = omega arith
missing_rows-length found (m ∷ ms) = ground (arith, missing_rows-length found ms)

missing_rows-lt :
    (p x : ℕ) (found found' : List ℕ) (ms : List CurrentMember)
    → ((y : ℕ) → mem_id y found ≡ true → mem_id y found' ≡ true)
    → any_member_row p x ms ≡ true
    → mem_id x found ≡ false
    → mem_id x found' ≡ true
    → missing_rows found' ms < missing_rows found ms
missing_rows-lt p x found found' [] more h old new = cc
missing_rows-lt p x found found' (m ∷ ms) more h old new = ground (
  arith,
  missing_rows-lt p x found found' ms more,
  missing_rows-le found found' ms more,
  more m.member_id,
)

-- Whatever the loop has found, and the relations of the next iteration, are below the roots; and
-- the members of all but the relations of the next iteration are found.
abbrev Sound : Database → List ℕ → List ℕ → List ℕ → Type 0
Sound db roots ids found =
    ((p : ℕ) → mem_id p found ≡ true → Below db roots p)
    × ((p : ℕ) → mem_id p ids ≡ true → (mem_id p roots ≡ true) ⊎ Below db roots p)

abbrev Covers : Database → List ℕ → List ℕ → List ℕ → Type 0
Covers db roots ids found =
    (p x : ℕ)
    → (mem_id p roots || mem_id p found) ≡ true
    → is_member db p x ≡ true
    → (mem_id x found || mem_id p ids) ≡ true

Below-child :
    (db : Database) (roots : List ℕ) (p x : ℕ)
    → (mem_id p roots ≡ true) ⊎ Below db roots p
    → is_member db p x ≡ true
    → Below db roots x
Below-child db roots p x (inl root) h = Below.direct p x root h
Below-child db roots p x (inr below) h = Below.deeper p x below h

Sound-step :
    (db : Database) (roots ids found : List ℕ)
    → Sound db roots ids found
    → Sound db roots
        (insert_children (child_relation_ids ids db) found []).1
        (insert_children (child_relation_ids ids db) found []).0
Sound-step db roots ids found (found_below, ids_below) =
    let kids = child_relation_ids ids db in
    let kid_below : (x : ℕ) → mem_id x kids ≡ true → Below db roots x = λ x kid.
      (let (p, known, h) = child-is_member x ids db kid in
        Below-child db roots p x (ids_below p known) h) in
    (
      λ x h. elim (Bool-cases (mem_id x found)) [
        | inl old ↦ found_below x old
        | inr new ↦ kid_below x (ground (arith, mem_id-insert_children x kids found []))
      ],
      λ x h. inr (kid_below x (ground (arith, mem_id-insert_children x kids found []))),
    )

Covers-step :
    (db : Database) (roots ids found : List ℕ)
    → Covers db roots ids found
    → Covers db roots
        (insert_children (child_relation_ids ids db) found []).1
        (insert_children (child_relation_ids ids db) found []).0
Covers-step db roots ids found covers p x h member =
    let kids = child_relation_ids ids db in
    elim (Bool-cases (mem_id p ids)) [
      | inl looked_at ↦ ground (
        arith,
        mem_id-insert_children x kids found [],
        is_member-child p x ids db looked_at member,
      )
      | inr before ↦ ground (
        arith,
        mem_id-insert_children x kids found [],
        mem_id-insert_children p kids found [],
        covers p x,
      )
    ]

module _ (db : Database) (roots : List ℕ) where
  collect_loop-Below :
      (fuel : ℕ) (ids found : List ℕ) {children : List ℕ}
      → Sound db roots ids found
      → Covers db roots ids found
      → collect_loop fuel ids found db ≡ some children
      → Sound db roots [] children × Covers db roots [] children
  unfolding collect_loop
  collect_loop-Below zero ids found sound covers h = cc
  collect_loop-Below (suc fuel) ids found {children} sound covers h =
      let step = insert_children (child_relation_ids ids db) found [] in
      let sound' = Sound-step db roots ids found sound in
      let covers' = Covers-step db roots ids found covers in
      elim (List-cases step.1) [
        | inl done ↦
            (let same : step.0 ≡ children = ground (arith, done) in
              rw (← same) ((rw done at sound', rw done at covers')))
        | inr (i, is, more) ↦
            collect_loop-Below fuel (i ∷ is) step.0 (rw more at sound') (rw more at covers')
              (ground (arith, more))
      ]

Below-found :
    (db : Database) (roots children : List ℕ)
    → Covers db roots [] children
    → (x : ℕ) → Below db roots x
    → mem_id x children ≡ true
Below-found db roots children covers x (Below.direct p _ root h) = ground (arith, covers p x)
Below-found db roots children covers x (Below.deeper p _ below h) =
    ground (arith, covers p x, Below-found db roots children covers p below)

-- What is collected are exactly the relations below those of the list: the ones that can be
-- reached from them, over relations of the table, by one or more steps from a relation to a member.
pub collect-Below :
    (db : Database) (roots children : List ℕ) (x : ℕ)
    → collect_recursive_relation_rel_member_ids roots db ≡ some children
    → (mem_id x children ≡ true) ↔ Below db roots x
unfolding collect_recursive_relation_rel_member_ids
collect-Below db [] children x h = (
  λ found. ground arith,
  λ below.
      (let none_found : false ≡ true = Below-found db [] [] (λ p y h' member. cc) x below in cc),
)
collect-Below db (i ∷ is) children x h =
    let (sound, covers) =
      collect_loop-Below db (i ∷ is) (collect_fuel db) (i ∷ is) []
        ((λ p none_found. cc), (λ p root. inl root)) (λ p y h' member. ground arith) h in
    (sound.0 x, Below-found db (i ∷ is) children covers x)

fewer_missing :
    (db : Database) (ids found : List ℕ) (i : ℕ) (is : List ℕ)
    → (insert_children (child_relation_ids ids db) found []).1 ≡ i ∷ is
    → missing_rows
        (insert_children (child_relation_ids ids db) found []).0
        db.current_relation_members
      < missing_rows found db.current_relation_members
fewer_missing db ids found i is more =
    let kids = child_relation_ids ids db in
    let next : mem_id i (insert_children kids found []).1 ≡ true = rw more (ground arith) in
    let kid : mem_id i kids ≡ true = ground (arith, mem_id-insert_children i kids found []) in
    let (p, known, h) = child-is_member i ids db kid in
    missing_rows-lt p i found _ db.current_relation_members
      (λ y old. ground (arith, mem_id-insert_children y kids found [])) (ground arith)
      (ground (arith, mem_id-insert_children i kids found []))
      (ground (arith, mem_id-insert_children i kids found []))

-- The fuel is enough while rows with members that are not found are fewer.
collect_loop-some :
    (fuel : ℕ) (db : Database) (ids found : List ℕ)
    → missing_rows found db.current_relation_members < fuel
    → (children : List ℕ) × (collect_loop fuel ids found db ≡ some children)
unfolding collect_loop
collect_loop-some zero db ids found enough = absurd (omega arith)
collect_loop-some (suc fuel) db ids found enough =
    let step = insert_children (child_relation_ids ids db) found [] in
    elim (List-cases step.1) [
      | inl done ↦ (step.0, ground (arith, done))
      | inr (i, is, more) ↦
          (let fewer = fewer_missing db ids found i is more in
            let (children, h) = collect_loop-some fuel db (i ∷ is) step.0 (omega (arith, fewer)) in
            (children, rw (more, collect_loop) h))
    ]

-- The collection ends: the fuel does not run out.
pub collect-some :
    (db : Database) (roots : List ℕ)
    → (children : List ℕ) × (collect_recursive_relation_rel_member_ids roots db ≡ some children)
unfolding collect_recursive_relation_rel_member_ids
collect-some db [] = ([], refl)
collect-some db (i ∷ is) =
    collect_loop-some (collect_fuel db) db (i ∷ is) []
      (omega (arith, missing_rows-length [] db.current_relation_members))
