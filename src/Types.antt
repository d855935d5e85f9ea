-- ===== src/Types.antt =====
-- include/cgimap/types.hpp, and the exceptions of include/cgimap/http.hpp as values.
use openstreetmap_cgimap.Prelude.{
  ℕ, String, ◌≡◌, refl, ◌↔◌, ◌⊎◌, inl, inr, Bool, true, false, ◌&&◌, arith, Eq, ◌==◌, ℕ-Eq,
  String-Eq,
}
use openstreetmap_cgimap.Prelude.Int.{ℤ}

-- A thrown exception, by its class. The text is the format string of its message, without the
-- arguments put in; the last one is a failed assertion or the use of a null pointer.
pub data Error : Type 0 where
  bad_request payload_error not_found conflict gone precondition_failed : String → Error
  server_error unauthorized payload_too_large too_many_requests not_acceptable : String → Error
  unsupported_media_type runtime_error assertion_failed : String → Error

-- What a call returns, or the exception that it throws.
pub data Result {ℓ} (R : Type ℓ) : Type ℓ where
  err : Error → Result R
  ok : R → Result R

-- The call returns; it does not throw.
abbrev pub is_ok {ℓ} : {R : Type ℓ} → Result R → Bool
is_ok (err thrown) = false
is_ok (ok value) = true

-- `if (!b) throw thrown;`
abbrev pub guard : Bool → Error → Result (Unit {0})
guard false thrown = err thrown
guard true thrown = ok tt

infixl 5 ◌>>=◌ ◌>>◌
-- The statements after a call: skipped when it throws.
abbrev pub ◌>>=◌ {ℓ κ} : {R : Type ℓ} {Next : Type κ} → Result R → (R → Result Next) → Result Next
err thrown >>= rest = err thrown
ok value >>= rest = rest value

abbrev pub ◌>>◌ {ℓ} : {Next : Type ℓ} → Result (Unit {0}) → Result Next → Result Next
check >> rest = check >>= λ _. rest

pub >>=-eq-ok {ℓ κ} :
    {R : Type ℓ} {Next : Type κ} (call : Result R) (rest : R → Result Next) {y : Next}
    → (call >>= rest) ≡ ok y
    → (x : R) × (call ≡ ok x) × (rest x ≡ ok y)
>>=-eq-ok (err thrown) rest e = cc
>>=-eq-ok (ok value) rest e = (value, refl, e)

pub guarded : (b : Bool) (e : Error) {u : Unit {0}} → guard b e ≡ ok u → b ≡ true
guarded b e h = ground arith

pub >>=-assoc {ℓ κ μ} :
    {A : Type ℓ} {B : Type κ} {C : Type μ} (m : Result A) (f : A → Result B) (g : B → Result C)
    → ((m >>= f) >>= g) ≡ (m >>= λ a. f a >>= g)
>>=-assoc (ok a) f g = refl
>>=-assoc (err e) f g = refl

pub >>=-ok {ℓ} : {A : Type ℓ} (m : Result A) → (m >>= ok) ≡ m
>>=-ok (ok a) = refl
>>=-ok (err e) = refl

pub >>=-cong {ℓ κ} :
    {A : Type ℓ} {B : Type κ} (m : Result A) {f g : A → Result B}
    → ((a : A) → f a ≡ g a)
    → (m >>= f) ≡ (m >>= g)
>>=-cong (ok a) h = h a
>>=-cong (err e) h = refl

pub ok-injective {ℓ} : {A : Type ℓ} {a b : A} → ok a ≡ ok b → a ≡ b
ok-injective h = cc

pub Result-cases {ℓ} :
    {A : Type ℓ} (r : Result A) → ((a : A) × (r ≡ ok a)) ⊎ ((e : Error) × (r ≡ err e))
Result-cases (ok a) = inl (a, refl)
Result-cases (err e) = inr (e, refl)

-- OSMChange message operations
pub data Operation : Type 0 where
  op_undefined op_create op_modify op_delete : Operation

-- OSMChange message object type
pub data ObjectType : Type 0 where
  node way relation : ObjectType

abbrev pub ObjectType_beq : ObjectType → ObjectType → Bool
ObjectType_beq node node = true
ObjectType_beq way way = true
ObjectType_beq relation relation = true
ObjectType_beq _ _ = false

pub ObjectType_beq_iff : (a b : ObjectType) → (ObjectType_beq a b ≡ true) ↔ (a ≡ b)
ObjectType_beq_iff a b = ground arith

instance abbrev pub ObjectType-Eq : Eq ObjectType
ObjectType-Eq = record { beq = ObjectType_beq; beq_iff = ObjectType_beq_iff }

-- `==` of a pair.
abbrev pub pair_beq {ℓ κ} : {A : Type ℓ} {B : Type κ} ⦃a : Eq A⦄ ⦃b : Eq B⦄ → A × B → A × B → Bool
pair_beq x y = x.0 == y.0 && x.1 == y.1

pub pair_beq_iff {ℓ κ} :
    {A : Type ℓ} {B : Type κ} ⦃a : Eq A⦄ ⦃b : Eq B⦄ (x y : A × B) → (pair_beq x y ≡ true) ↔ (x ≡ y)
pair_beq_iff ⦃a⦄ ⦃b⦄ x y = ground (arith, a.beq_iff x.0 y.0, b.beq_iff x.1 y.1)

instance abbrev pub Pair-Eq {ℓ κ} : {A : Type ℓ} {B : Type κ} ⦃a : Eq A⦄ ⦃b : Eq B⦄ → Eq (A × B)
Pair-Eq = record { beq = pair_beq; beq_iff = pair_beq_iff }

-- The keys (object_type, id) and (object_type, id, version) of the maps that look objects up.
abbrev pub ObjectKey : Type 0
ObjectKey = ObjectType × ℤ

abbrev pub EditionKey : Type 0
EditionKey = ObjectType × (ℤ × ℕ)
