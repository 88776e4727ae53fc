-- ===== src/Status/Service.antt =====
-- `change_status` of backend/app/modules/master_data/status_service.py. What loads and writes the
-- records of a store is an interface: the services of the collections fill it.
use lcs_system.Shared.{
  ℕ, if◌then◌else◌, Bool, true, false, ◌&&◌, ◌||◌, not, Option, none, some, List, [], ◌∷◌, Outcome,
  ok, ◌>>=◌, ◌>>◌, raise_if, or_raise, not_found, validation_failed, invalid_state, access_denied,
  conflict, transition_requires_command, is_empty, Text, strip,
}
use lcs_system.Status.{
  Kind, status, command, StatusTransition, Store, StatusPolicy, reference, generic, account,
  financial_account, posting_rule, sequence, period, order, user, role, get, transition, canonical,
  same_status,
}
use lcs_system.Status.Policies.{status_policies}

-- What `context.has_permission` answers.
pub record Caller : Type 0 where
  pub has_permission : Text → Bool

pub record AuditEvent : Type 0 where
  pub event_type : Text
  pub entity_type : Text
  pub entity_id : ℕ
  pub action : Text
  pub before : Text
  pub after : Text
  pub reason : Option Text

-- `_LOADERS`, `_APPLIERS` and `write_audit`, over the state of the database.
pub record StatusStores (S : Type 0) : Type 0 where
  pub load : Store → Text → ℕ → S → Outcome Text
  pub apply : Store → Text → ℕ → Text → S → Outcome S
  pub write_audit : AuditEvent → S → S

abbrev any_of : Caller → List Text → Bool
any_of caller [] = false
any_of caller (code ∷ rest) = caller.has_permission code || any_of caller rest

abbrev pub may_perform : Caller → StatusTransition → Bool
may_perform caller t = is_empty t.permissions || any_of caller t.permissions

abbrev pub is_command : Kind → Bool
is_command command = true
is_command status = false

-- The keys of `_APPLIERS`.
abbrev pub has_applier : Store → Bool
has_applier reference = true
has_applier generic = true
has_applier account = true
has_applier financial_account = true
has_applier posting_rule = true
has_applier sequence = true
has_applier period = true
has_applier order = true
has_applier user = true
has_applier role = true
has_applier _ = false

-- `str(reason or "").strip()`, and `None` for nothing.
abbrev pub given_reason : Option Text → Option Text
given_reason none = none
given_reason (some t) = if is_empty (strip t) then none else some (strip t)

abbrev pub is_missing : Option Text → Bool
is_missing none = true
is_missing (some _) = false

abbrev pub event_of : StatusPolicy → StatusTransition → ℕ → Text → Text → Option Text → AuditEvent
event_of p t key current to reason = record {
  event_type = t.event_type;
  entity_type = p.entity_type;
  entity_id = key;
  action = t.action;
  before = current;
  after = to;
  reason = given_reason reason;
}

module _ {S : Type 0} (stores : StatusStores S) (caller : Caller) where
  -- The record already has the status.
  unfoldable pub rewrite_status : StatusPolicy → Text → ℕ → Text → S → Outcome S
  rewrite_status p collection key to s = do
    raise_if (not (has_applier p.store)) not_found
    stores.apply p.store collection key to s

  unfoldable pub move_status : StatusPolicy → Text → ℕ → Text → Text → Option Text → S → Outcome S
  move_status p collection key current to reason s = do
    t ← or_raise (transition p current to) invalid_state
    raise_if (not (may_perform caller t)) access_denied
    raise_if (is_command t.kind) (conflict transition_requires_command)
    raise_if (t.reason && is_missing (given_reason reason)) validation_failed
    raise_if (not (has_applier p.store)) not_found
    s' ← stores.apply p.store collection key to s
    ok (stores.write_audit (event_of p t key current to reason) s')

  -- `item` is what `int(str(item_id).strip())` reads, none where it raises.
  unfoldable pub change_status : Text → Option ℕ → Text → Option Text → S → Outcome S
  unfolding rewrite_status move_status
  change_status collection item target reason s = do
    p ← or_raise (get collection status_policies) not_found
    to ← or_raise (canonical p target) validation_failed
    key ← or_raise item not_found
    current ← stores.load p.store collection key s
    if same_status current to
        then rewrite_status p collection key to s
        else move_status p collection key current to reason s
