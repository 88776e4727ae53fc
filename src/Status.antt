-- ===== src/Status.antt =====
-- backend/app/modules/master_data/status_policy.py: the lifecycle of a status, as a policy of each
-- collection. A dict is an association list; an assignment replaces the value of a key in its place.
pub mod Policies
pub mod WellFormed
pub mod Service
pub mod Changes
pub mod Finance
pub mod Tests
use lcs_system.Shared.{
  ℕ, if◌then◌else◌, Bool, true, false, ◌&&◌, ◌||◌, not, Option, none, some, or_else, List, [], ◌∷◌,
  map, where_rows, first_row, Text, codes, strip, upper, text_eqb,
}

pub data Kind : Type 0 where
  status command : Kind

pub record StatusTransition : Type 0 where
  pub to : Text
  pub action : Text
  pub permissions : List Text
  pub kind : Kind
  pub confirm : Bool
  pub reason : Bool
  pub event_type : Text

-- Which adapter loads and writes a record.
pub data Store : Type 0 where
  reference generic account financial_account posting_rule sequence period order : Store
  charge document journal quotation user role : Store

pub record StatusPolicy : Type 0 where
  pub entity_type : Text
  pub store : Store
  pub statuses : List Text
  pub transitions : List (Text × List StatusTransition)

abbrev pub normalize : Text → Text
normalize t = upper (strip t)

abbrev pub same_status : Text → Text → Bool
same_status s t = text_eqb (normalize s) (normalize t)

-- `d.get(key)` and `d[key] = value`
abbrev pub get {ℓ} : {A : Type ℓ} → Text → List (Text × A) → Option A
get key [] = none
get key ((k, a) ∷ d) = let rest = get key d in if text_eqb k key then some a else rest

abbrev pub put {ℓ} : {A : Type ℓ} → Text → A → List (Text × A) → List (Text × A)
put key a [] = (key, a) ∷ []
put key a ((k, old) ∷ d) =
    let rest = (k, old) ∷ put key a d in if text_eqb k key then (k, a) ∷ d else rest

-- `self.transitions.get(_normalize(from_status), ())`
abbrev pub transitions_from : StatusPolicy → Text → List StatusTransition
transitions_from p from = or_else (get (normalize from) p.transitions) []

-- The first transition from a status to another.
unfoldable pub transition : StatusPolicy → Text → Text → Option StatusTransition
transition p from to = first_row (λ i. same_status i.to to) (transitions_from p from)

-- The stored spelling of a status.
unfoldable pub canonical : StatusPolicy → Text → Option Text
canonical p value = first_row (λ s. same_status s value) p.statuses

-- `StatusTransition(to=..., action=..., permissions=...)` with the defaults of the other fields.
abbrev pub plain : Text → Text → List Text → StatusTransition
plain to action permissions = record {
  to = to;
  action = action;
  permissions = permissions;
  kind = status;
  confirm = false;
  reason = false;
  event_type = codes "STATUS_CHANGED";
}

abbrev pub workflow : Text → Text → List Text → StatusTransition
workflow to action permissions = record (plain to action permissions) {
  kind = command;
  confirm = true;
}

abbrev pub toggle_transitions : Text → Text → List Text → List (Text × List StatusTransition)
toggle_transitions active inactive permissions =
    put (normalize inactive) (plain active (codes "activate") permissions ∷ [])
      ((normalize active, plain inactive (codes "deactivate") permissions ∷ []) ∷ [])

-- Every other value of a vocabulary.
abbrev marks : List Text → List Text → Text → List StatusTransition
marks values permissions value =
    map (λ other. plain other (codes "mark") permissions)
      (where_rows (λ other. not (same_status other value)) values)

abbrev mark_each :
    List Text
    → List Text
    → List Text
    → List (Text × List StatusTransition)
    → List (Text × List StatusTransition)
mark_each values permissions [] d = d
mark_each values permissions (v ∷ rest) d =
    mark_each values permissions rest (put (normalize v) (marks values permissions v) d)

abbrev pub vocabulary_transitions : List Text → List Text → List (Text × List StatusTransition)
vocabulary_transitions values permissions = mark_each values permissions values []
