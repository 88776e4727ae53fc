-- ===== src/Status/Finance.antt =====
-- The stores of backend/app/modules/master_data/status_service.py whose records are in the books of
-- the finance module: `_load_posting_rule`, `_load_period`, `_load_document`, `_load_journal`,
-- `_apply_posting_rule` and `_apply_period`. The other stores are an argument.
use lcs_system.Shared.{
  ℕ, ◌≡◌, if◌then◌else◌, Option, none, some, List, [], ◌∷◌, Outcome, ok, err, ◌>>=◌, or_raise,
  not_found, invalid_state, Text, codes, ok-injective, some-eq, ap, sym, refl, Bool-cases, inl, inr,
}
use lcs_system.Finance.Models.{
  Books, RecordStatus, active, inactive, PeriodStatus, opened, closed, reopened, DocumentStatus,
  EntryStatus,
}
use lcs_system.Finance.Periods.{find_period, reopen_period}
use lcs_system.Finance.Ledger.{find_document, find_entry}
use lcs_system.Finance.PostingRules.Administration.{
  PostingRuleInput, omitted, given, find_rule, update_posting_rule,
}
use lcs_system.Status.{
  Store, posting_rule, period, document, journal, StatusPolicy, same_status, get,
}
use lcs_system.Status.Policies.{status_policies}
use lcs_system.Status.Changes.{change_status-cases}
use lcs_system.Status.Service.{AuditEvent, StatusStores, Caller, change_status}

-- The books and the audit events, the latest first.
pub record Audited : Type 0 where
  pub books : Books
  pub events : List AuditEvent

abbrev record_status : RecordStatus → Text
record_status active = codes "ACTIVE"
record_status inactive = codes "INACTIVE"

abbrev period_status : PeriodStatus → Text
period_status opened = codes "OPEN"
period_status closed = codes "CLOSED"
period_status reopened = codes "REOPENED"

abbrev document_status : DocumentStatus → Text
document_status DocumentStatus.draft = codes "DRAFT"
document_status DocumentStatus.posted = codes "POSTED"
document_status DocumentStatus.reversed = codes "REVERSED"
document_status DocumentStatus.unknown = []

abbrev entry_status : EntryStatus → Text
entry_status EntryStatus.draft = codes "DRAFT"
entry_status EntryStatus.posted = codes "POSTED"
entry_status EntryStatus.unknown = []

abbrev load_posting_rule : ℕ → Books → Outcome Text
load_posting_rule key b = do
  r ← or_raise (find_rule key b.rules) not_found
  ok (record_status r.status)

abbrev load_period : ℕ → Books → Outcome Text
load_period key b = do
  p ← or_raise (find_period key b.periods) not_found
  ok (period_status p.status)

abbrev load_document : ℕ → Books → Outcome Text
load_document key b = do
  d ← or_raise (find_document key b.documents) not_found
  ok (document_status d.status)

abbrev load_journal : ℕ → Books → Outcome Text
load_journal key b = do
  e ← or_raise (find_entry key b.entries) not_found
  ok (entry_status e.status)

-- `{"status": target}`
abbrev pub status_only : Text → PostingRuleInput
status_only target = record {
  document_type = omitted;
  fee_type_id = omitted;
  debit_account = omitted;
  credit_account = omitted;
  tax_account = omitted;
  status = given target;
  priority = omitted;
}

abbrev apply_period : ℕ → Text → Books → Outcome Books
apply_period key target b =
    if same_status target (codes "OPEN") then reopen_period key b else err invalid_state

abbrev with_books : Audited → Outcome Books → Outcome Audited
with_books s (ok b) = ok (record s { books = b })
with_books s (err e) = err e

module _ (others : StatusStores Audited) where
  abbrev load_record : Store → Text → ℕ → Audited → Outcome Text
  load_record posting_rule collection key s = load_posting_rule key s.books
  load_record period collection key s = load_period key s.books
  load_record document collection key s = load_document key s.books
  load_record journal collection key s = load_journal key s.books
  load_record store collection key s = others.load store collection key s

  abbrev apply_record : Store → Text → ℕ → Text → Audited → Outcome Audited
  apply_record posting_rule collection key target s =
      with_books s (update_posting_rule key (status_only target) s.books)
  apply_record period collection key target s = with_books s (apply_period key target s.books)
  apply_record store collection key target s = others.apply store collection key target s

  abbrev pub finance_stores : StatusStores Audited
  finance_stores = record {
    load = load_record;
    apply = apply_record;
    write_audit = λ e s. record s { events = e ∷ s.events };
  }

with_books-eq-ok :
    (s : Audited) (m : Outcome Books) {s' : Audited} → with_books s m ≡ ok s' → m ≡ ok s'.books
with_books-eq-ok s (ok b) e = ap (λ (x : Audited). ok x.books) (sym (ok-injective e))
with_books-eq-ok s (err refusal) e = cc

abbrev store_of : Option StatusPolicy → Option Store
store_of none = none
store_of (some p) = some p.store

module _ (others : StatusStores Audited) (caller : Caller) (item : Option ℕ) (target : Text)
    (reason : Option Text) (s : Audited) where
  -- Whatever a change of status through the shared endpoint did, it wrote the books as the applier
  -- of the collection's store does.
  applied_books :
      (collection : Text) (store : Store) {s' : Audited}
      → store_of (get collection status_policies) ≡ some store
      → change_status (finance_stores others) caller collection item target reason s ≡ ok s'
      → (key : ℕ) × (to : Text) × (item ≡ some key)
        × (written : Audited) × (apply_record others store collection key to s ≡ ok written)
        × (s'.books ≡ written.books)
  applied_books collection store {s'} stored e =
      let (f, case) =
        change_status-cases (finance_stores others) caller collection item target reason s e in
      let same : f.policy.store ≡ store = some-eq (rw f.known at stored) in
      elim case [
        | inl (_, applied) ↦ (f.key, f.to, f.numbered, s', rw same at applied, refl)
        | inr m ↦ (
          f.key,
          f.to,
          f.numbered,
          m.written,
          rw same at m.applied,
          ap (λ (x : Audited). x.books) m.audited,
        )
      ]

  periods-stored : store_of (get (codes "accountingPeriods") status_policies) ≡ some period
  unfolding status_policies
  periods-stored = refl

  -- A change of an accounting period's status through the shared endpoint is the reopening of that
  -- period: the endpoint never closes one.
  pub change_status-reopens :
      (s' : Audited)
      → change_status
          (finance_stores others)
          caller
          (codes "accountingPeriods")
          item
          target
          reason
          s
        ≡ ok s'
      → (key : ℕ) × (item ≡ some key) × (reopen_period key s.books ≡ ok s'.books)
  change_status-reopens s' e =
      let (key, to, numbered, written, applied, same) =
        applied_books (codes "accountingPeriods") period periods-stored e in
      (
        key,
        numbered,
        rw same (opening to key (with_books-eq-ok s (apply_period key to s.books) applied)),
      )
    where
      opening :
          (to : Text) (key : ℕ) {b : Books}
          → apply_period key to s.books ≡ ok b
          → reopen_period key s.books ≡ ok b
      opening to key h = elim (Bool-cases (same_status to (codes "OPEN"))) [
        | inl t ↦ rw t at h
        | inr f ↦ cc (rw f at h)
      ]
