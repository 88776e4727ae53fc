-- ===== src/Status/Changes.antt =====
-- What a change of status through the shared endpoint asks for.
use lcs_system.Shared.{
  ℕ, ◌≡◌, ◌≢◌, refl, if◌then◌else◌, Bool, true, false, ◌&&◌, not, Option, none, some, ok, List, [],
  ◌∷◌, All, All-imp, codes, not_found, validation_failed, invalid_state, access_denied, conflict,
  transition_requires_command, Text, raise_if-eq-ok, or_raise-eq-ok, >>=-eq-ok, ok-injective,
  Bool-cases, ◌⊎◌, inl, inr, arith,
}
use lcs_system.Status.{StatusTransition, StatusPolicy, get, transition, canonical, same_status}
use lcs_system.Status.Policies.{status_policies}
use lcs_system.Status.Service.{
  Caller, StatusStores, may_perform, is_command, has_applier, given_reason, is_missing, event_of,
  rewrite_status, move_status, change_status,
}

-- The collections of quotations, journals, financial documents and charges of jobs.
abbrev pub workflow_collections : List Text
workflow_collections =
    codes "quotations"
    ∷ codes "journals"
    ∷ codes "debitNotes"
    ∷ codes "customerPayments"
    ∷ codes "supplierCosts"
    ∷ codes "supplierPayments"
    ∷ codes "jobCharges"
    ∷ []

module _ {S : Type 0} (stores : StatusStores S) (caller : Caller) where
  -- A record that moved from `current` to `to`.
  pub record Moved (p : StatusPolicy) (collection : Text) (key : ℕ) (current to : Text)
      (reason : Option Text) (s s' : S) : Type 0 where
    pub step : StatusTransition
    pub listed : transition p current to ≡ some step
    pub permitted : may_perform caller step ≡ true
    pub direct : is_command step.kind ≡ false
    pub reasoned : (step.reason && is_missing (given_reason reason)) ≡ false
    pub written : S
    pub applied : stores.apply p.store collection key to s ≡ ok written
    pub audited : s' ≡ stores.write_audit (event_of p step key current to reason) written

  not-false : {c : Bool} → not c ≡ false → c ≡ true
  not-false h = ground arith

  move_status-Moved :
      (p : StatusPolicy) (collection : Text) (key : ℕ) (current to : Text) (reason : Option Text)
      (s : S) {s' : S}
      → move_status stores caller p collection key current to reason s ≡ ok s'
      → (has_applier p.store ≡ true) × Moved p collection key current to reason s s'
  unfolding move_status
  move_status-Moved p collection key current to reason s e =
      let (t, listed, e₁) = or_raise-eq-ok (transition p current to) invalid_state _ e in
      let (allowed, e₂) = raise_if-eq-ok (not (may_perform caller t)) access_denied _ e₁ in
      let (direct, e₃) =
        raise_if-eq-ok (is_command t.kind) (conflict transition_requires_command) _ e₂ in
      let (reasoned, e₄) =
        raise_if-eq-ok (t.reason && is_missing (given_reason reason)) validation_failed _ e₃ in
      let (appliable, e₅) = raise_if-eq-ok (not (has_applier p.store)) not_found _ e₄ in
      let (written, applied, e₆) = >>=-eq-ok (stores.apply p.store collection key to s) _ e₅ in
      (
        not-false appliable,
        record {
          step = t;
          listed = listed;
          permitted = not-false allowed;
          direct = direct;
          reasoned = reasoned;
          written = written;
          applied = applied;
          audited = ok-injective e₆;
        },
      )

  by_status :
      (p : StatusPolicy) (collection : Text) (key : ℕ) (current to : Text) (reason : Option Text)
      (s : S) {s' : S}
      → (if same_status current to
          then rewrite_status stores caller p collection key to s
          else move_status stores caller p collection key current to reason s)
        ≡ ok s'
      → (has_applier p.store ≡ true)
        × (((same_status current to ≡ true) × (stores.apply p.store collection key to s ≡ ok s'))
            ⊎ Moved p collection key current to reason s s')
  unfolding rewrite_status
  by_status p collection key current to reason s e = elim (Bool-cases (same_status current to)) [
    | inl same ↦
        let (appliable, e₁) =
          raise_if-eq-ok (not (has_applier p.store)) not_found _ (rw (same, rewrite_status) at e) in
        (not-false appliable, inl (same, e₁))
    | inr apart ↦
        let (appliable, moved) =
          move_status-Moved p collection key current to reason s (rw apart at e) in
        (appliable, inr moved)
  ]

  -- What a call that goes through has found: the policy of the collection, the declared spelling of
  -- the target, and the record.
  pub record Found (collection : Text) (item : Option ℕ) (target : Text) (s : S) : Type 0 where
    pub policy : StatusPolicy
    pub known : get collection status_policies ≡ some policy
    pub to : Text
    pub declared : canonical policy target ≡ some to
    pub key : ℕ
    pub numbered : item ≡ some key
    pub current : Text
    pub loaded : stores.load policy.store collection key s ≡ ok current
    pub appliable : has_applier policy.store ≡ true

  -- A change of status that goes through is of a known collection to a status that its policy
  -- declares. Either the record already had that status and was written again, or the policy lists
  -- a transition from the status it had, which the caller may perform, which belongs to no workflow
  -- and has the reason it asks for; the record is then written, and one audit event is left.
  pub change_status-cases :
      (collection : Text) (item : Option ℕ) (target : Text) (reason : Option Text) (s : S) {s' : S}
      → change_status stores caller collection item target reason s ≡ ok s'
      → (f : Found collection item target s) × (((same_status f.current f.to ≡ true)
            × (stores.apply f.policy.store collection f.key f.to s ≡ ok s'))
          ⊎ Moved f.policy collection f.key f.current f.to reason s s')
  unfolding change_status
  change_status-cases collection item target reason s {s'} e =
      let (p, known, e₁) = or_raise-eq-ok (get collection status_policies) not_found _ e in
      let (to, declared, e₂) = or_raise-eq-ok (canonical p target) validation_failed _ e₁ in
      let (key, numbered, e₃) = or_raise-eq-ok item not_found _ e₂ in
      let (current, loaded, e₄) = >>=-eq-ok (stores.load p.store collection key s) _ e₃ in
      let (appliable, case) = by_status p collection key current to reason s e₄ in
      (
        record {
          policy = p;
          known = known;
          to = to;
          declared = declared;
          key = key;
          numbered = numbered;
          current = current;
          loaded = loaded;
          appliable = appliable;
        },
        case,
      )

  -- Whether the record of a collection can be written at all.
  abbrev is_written : Option StatusPolicy → Bool
  is_written none = false
  is_written (some p) = has_applier p.store

  unwritten-refused :
      (collection : Text) (item : Option ℕ) (target : Text) (reason : Option Text) (s s' : S)
      → is_written (get collection status_policies) ≡ false
      → change_status stores caller collection item target reason s ≢ ok s'
  unwritten-refused collection item target reason s s' missing e =
      let (f, _) = change_status-cases collection item target reason s e in
      cc (rw f.known at missing, f.appliable)

  -- No call changes the status of a quotation, a journal, a financial document of any of the four
  -- collections or a charge of a job through the shared endpoint, whoever calls and whatever the
  -- stores are.
  pub change_status-refused :
      (item : Option ℕ) (target : Text) (reason : Option Text) (s s' : S)
      → All
          (λ collection. change_status stores caller collection item target reason s ≢ ok s')
          workflow_collections
  unfolding status_policies
  change_status-refused item target reason s s' =
      let Unwritten : Text → Type 0 =
        λ collection. is_written (get collection status_policies) ≡ false in
      let all : All Unwritten workflow_collections =
        (refl, (refl, (refl, (refl, (refl, (refl, (refl, tt))))))) in
      All-imp Unwritten _ workflow_collections
        (λ collection missing. unwritten-refused collection item target reason s s' missing) all
