-- ===== src/Element/Found.antt =====
-- The ids that a lock finds, and the lists of ids that updaters compute with.
use openstreetmap_cgimap.NodeUpdater.Tables.{mem_id, unique_ids, insert_id}
use openstreetmap_cgimap.Prelude.{
  ℕ, ◌≡◌, refl, inl, inr, true, ◌||◌, List, [], ◌∷◌, ◌++◌, arith, eqb, ℕ-Eq, String-Eq, Bool-cases,
  All,
}
use openstreetmap_cgimap.Prelude.Int.{ℤ-Eq}
use openstreetmap_cgimap.Types.{Error, Result, ok, >>=-eq-ok, ok-injective, ObjectType-Eq, Pair-Eq}
use openstreetmap_cgimap.Element.{missing_from, none_missing, process_packages}

pub mem_id-insert_id :
    (j i : ℕ) (is : List ℕ) → mem_id j (insert_id i is) ≡ (eqb j i || mem_id j is)
unfolding insert_id
mem_id-insert_id j i [] = refl
mem_id-insert_id j i (k ∷ is) = ground (arith, mem_id-insert_id j i is)

pub mem_id-unique_ids : (j : ℕ) (is : List ℕ) → mem_id j (unique_ids is) ≡ mem_id j is
unfolding unique_ids
mem_id-unique_ids j [] = refl
mem_id-unique_ids j (i ∷ is) =
    ground (arith, mem_id-insert_id j i (unique_ids is), mem_id-unique_ids j is)

pub mem_id-append : (j : ℕ) (is ks : List ℕ) → mem_id j (is ++ ks) ≡ (mem_id j is || mem_id j ks)
mem_id-append j [] ks = refl
mem_id-append j (i ∷ is) ks = ground (arith, mem_id-append j is ks)

-- When no exception is thrown, every id is found.
pub none_missing-all_found :
    (e : Error) (is found : List ℕ) {u : Unit {0}} (j : ℕ)
    → none_missing e (missing_from is found) ≡ ok u
    → mem_id j is ≡ true
    → mem_id j found ≡ true
unfolding missing_from
none_missing-all_found e [] found j h m = cc
none_missing-all_found e (i ∷ is) found j h m = elim (Bool-cases (mem_id i found)) [
  | inl there ↦ ground (arith, none_missing-all_found e is found j)
  | inr absent ↦ ground arith
]

pub All-append {ℓ κ} :
    {A : Type ℓ} (P : A → Type κ) (xs ys : List A) → All P xs → All P ys → All P (xs ++ ys)
All-append P [] ys px py = py
All-append P (x ∷ xs) ys (p, px) py = (p, All-append P xs ys px py)

pub All-map {ℓ κ μ} :
    {A : Type ℓ} {P : A → Type κ} {Q : A → Type μ} (xs : List A)
    → ((x : A) → P x → Q x)
    → All P xs
    → All Q xs
All-map [] f p = tt
All-map (x ∷ xs) f (p, ps) = (f x p, All-map xs f ps)

-- What the step for one package keeps, all packages keep.
pub process_packages-keeps {ℓ κ} :
    {P : Type 0} {S : Type ℓ} (process : P → S → Result S) (Holds : S → Type κ)
    → ((p : P) (s s' : S) → process p s ≡ ok s' → Holds s → Holds s')
    → (ps : List P) (s s' : S) → process_packages process ps s ≡ ok s'
    → Holds s
    → Holds s'
unfolding process_packages
process_packages-keeps process Holds step [] s s' h held = rw (← ok-injective h) held
process_packages-keeps process Holds step (p ∷ ps) s s' h held =
    let (s1, first, h1) = >>=-eq-ok (process p s) _ h in
    process_packages-keeps process Holds step ps s1 s' h1 (step p s s1 first held)
