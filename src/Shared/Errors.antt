-- ===== src/Shared/Errors.antt =====
-- The refusals of core/exceptions.py as values, and the result of a service call. A request runs in
-- one transaction that a raised error rolls back, so an error carries no new state.
use mathlib.Core.Path.{◌≡◌, refl}
use mathlib.Core.Logic.{◌⊎◌, inl, inr}
use mathlib.Core.Bool.{Bool, true, false}
use mathlib.Core.Option.{Option, none, some}

-- The codes of `Conflict`.
pub data ConflictCode : Type 0 where
  journal_unbalanced ambiguous_posting_rule duplicate_posting period_closed : ConflictCode
  document_already_reversed currency_mismatch allocation_exceeds_balance : ConflictCode
  duplicate_posting_rule duplicate_conversion transition_requires_command : ConflictCode
  record_active delete_blocked role_in_use duplicate_role : ConflictCode
  duplicate_email duplicate_username duplicate_user_code : ConflictCode

pub data DomainError : Type 0 where
  access_denied not_found invalid_state validation_failed : DomainError
  -- an exception that no handler turns into a refusal
  internal_error : DomainError
  conflict : ConflictCode → DomainError

pub data Outcome {ℓ} (A : Type ℓ) : Type ℓ where
  ok : A → Outcome A
  err : DomainError → Outcome A

infixl 5 ◌>>=◌ ◌>>◌
abbrev pub ◌>>=◌ {ℓ κ} : {A : Type ℓ} {B : Type κ} → Outcome A → (A → Outcome B) → Outcome B
err refusal >>= next = err refusal
ok a >>= next = next a

abbrev pub ◌>>◌ {ℓ} : {B : Type ℓ} → Outcome (Unit {0}) → Outcome B → Outcome B
m >> k = m >>= λ _. k

-- `if refused: raise e`.
abbrev pub raise_if : Bool → DomainError → Outcome (Unit {0})
raise_if true e = err e
raise_if false e = ok tt

abbrev pub or_raise {ℓ} : {A : Type ℓ} → Option A → DomainError → Outcome A
or_raise none e = err e
or_raise (some a) _ = ok a

-- A successful chain succeeded in its first step.
pub >>=-eq-ok {ℓ κ} :
    {A : Type ℓ} {B : Type κ} (first : Outcome A) (rest : A → Outcome B) {result : B}
    → first >>= rest ≡ ok result
    → (a : A) × (first ≡ ok a) × (rest a ≡ ok result)
>>=-eq-ok (err e) rest h = cc
>>=-eq-ok (ok a) rest h = (a, refl, h)

-- A check that was passed.
pub >>-eq-ok {ℓ} :
    {B : Type ℓ} (check : Outcome (Unit {0})) (rest : Outcome B) {result : B}
    → check >> rest ≡ ok result
    → rest ≡ ok result
>>-eq-ok (err e) rest h = cc
>>-eq-ok (ok _) rest h = h

-- A check that was passed, and what came after it.
pub >>-passed {ℓ} :
    {B : Type ℓ} (check : Outcome (Unit {0})) (rest : Outcome B) {result : B}
    → check >> rest ≡ ok result
    → (check ≡ ok tt) × (rest ≡ ok result)
>>-passed (err e) rest h = cc
>>-passed (ok _) rest h = (refl, h)

pub Outcome-cases {ℓ} :
    {A : Type ℓ} (m : Outcome A) → ((e : DomainError) × (m ≡ err e)) ⊎ ((a : A) × (m ≡ ok a))
Outcome-cases (err e) = inl (e, refl)
Outcome-cases (ok a) = inr (a, refl)

-- A guard that was passed.
pub raise_if-eq-ok {ℓ} :
    {A : Type ℓ} (refused : Bool) (e : DomainError) (f : Unit {0} → Outcome A) {a : A}
    → (raise_if refused e >>= f) ≡ ok a
    → (refused ≡ false) × (f tt ≡ ok a)
raise_if-eq-ok true e f h = cc
raise_if-eq-ok false e f h = (refl, h)

-- A lookup that found its row.
pub or_raise-eq-ok {ℓ κ} :
    {A : Type ℓ} {B : Type κ} (o : Option A) (e : DomainError) (f : A → Outcome B) {b : B}
    → (or_raise o e >>= f) ≡ ok b
    → (a : A) × (o ≡ some a) × (f a ≡ ok b)
or_raise-eq-ok none e f h = cc
or_raise-eq-ok (some a) e f h = (a, refl, h)

pub ok-injective {ℓ} : {A : Type ℓ} {a b : A} → ok a ≡ ok b → b ≡ a
ok-injective h = cc
