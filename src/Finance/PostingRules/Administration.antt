-- ===== src/Finance/PostingRules/Administration.antt =====
-- `create_posting_rule`, `update_posting_rule` and `delete_posting_rules` of
-- backend/app/modules/finance/service.py, with the partial unique index of
-- backend/app/modules/finance/models.py that a flush checks. A payload is what
-- POSTING_RULE_WRITE_SCHEMA returns.
pub mod Unique
pub mod Reached
use lcs_system.Shared.{
  ℕ, zero, suc, ◌+◌, ◌*◌, ◌-◌, leb, ◌==◌, if◌then◌else◌, Bool, true, false, ◌&&◌, not, Option, none,
  some, or_else, is_key, same_key, List, [], ◌∷◌, ℤ, pos, ltb_ℤ, eqb_ℤ, Outcome, ok, err, ◌>>=◌,
  ◌>>◌, raise_if, or_raise, not_found, validation_failed, internal_error, conflict,
  duplicate_posting_rule, record_active, delete_blocked, first_row, where_rows, is_found, Text,
  codes, strip, upper, text_eqb,
}
use lcs_system.Finance.Models.{
  ChartOfAccount, RecordStatus, active, inactive, PostingRule, DocumentType, other, JournalEntry,
  Books,
}
use lcs_system.Finance.PostingRules.{
  same_type, is_active, validate_postable, account_by_id, account_by_code,
}

-- A field of a payload: its key is missing, its value is None or "", or it has a value.
pub data Field {ℓ} (A : Type ℓ) : Type ℓ where
  omitted blank : Field A
  given : A → Field A

-- `int(value)` is the number that Python reads, none where it raises.
pub record PostingRuleInput : Type 0 where
  pub document_type : Field DocumentType
  pub fee_type_id : Field (Option ℕ)
  pub debit_account : Field Text
  pub credit_account : Field Text
  pub tax_account : Field Text
  pub status : Field Text
  pub priority : Field (Option ℤ)

-- The column values to write.
pub record RuleValues : Type 0 where
  pub document_type : DocumentType
  pub fee_type_id : Option ℕ
  pub debit_account_id : ℕ
  pub credit_account_id : ℕ
  pub tax_account_id : Option ℕ
  pub status : RecordStatus
  pub priority : ℤ

abbrev is_digit : ℕ → Bool
is_digit c = leb 48 c && leb c 57

abbrev all_digits : Text → Bool
all_digits [] = true
all_digits (c ∷ s) = is_digit c && all_digits s

-- `str.isdigit` over ASCII
abbrev is_number : Text → Bool
is_number [] = false
is_number (c ∷ s) = all_digits (c ∷ s)

abbrev read_digits : ℕ → Text → ℕ
read_digits n [] = n
read_digits n (c ∷ s) = read_digits (n * 10 + (c - 48)) s

-- A code, else a number that is a key.
unfoldable pub resolve_account_ref : List ChartOfAccount → Text → Option ChartOfAccount
resolve_account_ref accounts value = elim (account_by_code accounts value) [
  | some a ↦ some a
  | none ↦ if is_number value then account_by_id accounts (read_digits 0 value) else none
]

-- The account that a payload names, an error where it may not be posted to.
abbrev required_account : List ChartOfAccount → Field Text → Outcome (Option ChartOfAccount)
required_account accounts (given value) = do
  a ← or_raise (resolve_account_ref accounts value) validation_failed
  checked ← validate_postable (some a)
  ok (some checked)
required_account accounts _ = err validation_failed

abbrev optional_account : List ChartOfAccount → Field Text → Outcome (Option ChartOfAccount)
optional_account accounts (given value) = required_account accounts (given value)
optional_account accounts _ = ok none

-- `session.get(...) if account_id else None`
abbrev kept_account : List ChartOfAccount → Option ℕ → Option ChartOfAccount
kept_account accounts none = none
kept_account accounts (some zero) = none
kept_account accounts (some (suc key)) = account_by_id accounts (suc key)

-- `_rule_account`: an omitted field keeps the column of the rule that is edited.
unfoldable pub rule_account :
    List ChartOfAccount
    → Option PostingRule
    → (PostingRule → Option ℕ)
    → Bool
    → Field Text
    → Outcome (Option ChartOfAccount)
rule_account accounts (some rule) column _ omitted = ok (kept_account accounts (column rule))
rule_account accounts _ _ true field = required_account accounts field
rule_account accounts _ _ false field = optional_account accounts field

abbrev pub is_known : DocumentType → Bool
is_known (other _) = false
is_known _ = true

-- `data.get("documentType") or current.document_type`
abbrev document_type_of : Option PostingRule → Field DocumentType → Outcome DocumentType
document_type_of _ (given t) = if is_known t then ok t else err validation_failed
document_type_of (some rule) _ =
    if is_known rule.document_type then ok rule.document_type else err validation_failed
document_type_of none _ = err validation_failed

abbrev read_status : Text → Outcome RecordStatus
read_status t =
    let value = upper (strip t) in
    if text_eqb value (codes "ACTIVE")
    then ok active
    else if text_eqb value (codes "INACTIVE")
    then ok inactive
    else err validation_failed

abbrev status_of : Option PostingRule → Field Text → Outcome RecordStatus
status_of _ (given t) = read_status t
status_of (some rule) _ = ok rule.status
status_of none _ = ok active

abbrev fee_type_of : Option PostingRule → Field (Option ℕ) → Option ℕ
fee_type_of _ (given key) = key
fee_type_of _ blank = none
fee_type_of (some rule) omitted = rule.fee_type_id
fee_type_of none omitted = none

abbrev priority_of : Option PostingRule → Field (Option ℤ) → Outcome ℤ
priority_of _ (given n) = or_raise n validation_failed
priority_of (some rule) _ = ok rule.priority
priority_of none _ = ok (pos 0)

abbrev key_of : ChartOfAccount → ℕ
key_of a = a.id

abbrev key_in : Option ChartOfAccount → Option ℕ
key_in none = none
key_in (some a) = some a.id

abbrev rule_key : Option PostingRule → Option ℕ
rule_key none = none
rule_key (some rule) = some rule.id

-- The query of `_assert_unique_priority`.
abbrev pub duplicates : RuleValues → Option ℕ → PostingRule → Bool
duplicates v exclude r =
    same_type r.document_type v.document_type
    && same_key r.fee_type_id v.fee_type_id
    && eqb_ℤ r.priority v.priority
    && is_active r.status
    && not (is_key exclude r.id)

unfoldable pub assert_unique_priority :
    List PostingRule → RuleValues → Option ℕ → Outcome (Unit {0})
assert_unique_priority rules v exclude =
    if not (is_active v.status)
    then ok tt
    else raise_if (is_found (first_row (duplicates v exclude) rules))
        (conflict duplicate_posting_rule)

-- Every error of a field is the same refusal, so the order of the checks does not show.
unfoldable pub posting_rule_data :
    Books → PostingRuleInput → Option PostingRule → Outcome RuleValues
unfolding rule_account assert_unique_priority
posting_rule_data b input current = do
  document_type ← document_type_of current input.document_type
  status ← status_of current input.status
  debit ← rule_account b.accounts current (λ r. some r.debit_account_id) true input.debit_account
  credit ← rule_account b.accounts current (λ r. some r.credit_account_id) true input.credit_account
  tax ← rule_account b.accounts current (λ r. r.tax_account_id) false input.tax_account
  priority ← priority_of current input.priority
  raise_if (ltb_ℤ priority (pos 0)) validation_failed
  debit_account ← or_raise debit internal_error
  credit_account ← or_raise credit internal_error
  let values : RuleValues = record {
    document_type = document_type;
    fee_type_id = fee_type_of current input.fee_type_id;
    debit_account_id = key_of debit_account;
    credit_account_id = key_of credit_account;
    tax_account_id = key_in tax;
    status = status;
    priority = priority;
  }
  raise_if (values.debit_account_id == values.credit_account_id) validation_failed
  assert_unique_priority b.rules values (rule_key current)
  ok values

-- Two active rows with one key of `uq_posting_rules_active_priority`.
abbrev pub collides : PostingRule → PostingRule → Bool
collides r q =
    is_active r.status
    && is_active q.status
    && same_type r.document_type q.document_type
    && or_else r.fee_type_id 0 == or_else q.fee_type_id 0
    && eqb_ℤ r.priority q.priority

unfoldable pub index_holds : List PostingRule → Bool
index_holds [] = true
index_holds (r ∷ rs) = not (is_found (first_row (collides r) rs)) && index_holds rs

-- `_flush_rule`: the rows are written unless the index refuses them.
unfoldable pub flush_rule : List PostingRule → Books → Outcome Books
unfolding index_holds
flush_rule rules b = do
  raise_if (not (index_holds rules)) (conflict duplicate_posting_rule)
  ok (record b { rules = rules })

abbrev pub row_of : ℕ → RuleValues → PostingRule
row_of key v = record {
  id = key;
  document_type = v.document_type;
  fee_type_id = v.fee_type_id;
  debit_account_id = v.debit_account_id;
  credit_account_id = v.credit_account_id;
  tax_account_id = v.tax_account_id;
  status = v.status;
  priority = v.priority;
}

unfoldable pub create_posting_rule : PostingRuleInput → Books → Outcome Books
unfolding posting_rule_data flush_rule
create_posting_rule input b = do
  v ← posting_rule_data b input none
  flush_rule (row_of b.next_id v ∷ b.rules) (record b { next_id = suc b.next_id })

-- The row with a key takes new values.
unfoldable pub rewrite : ℕ → RuleValues → List PostingRule → List PostingRule
rewrite key v [] = []
rewrite key v (r ∷ rs) = if r.id == key then row_of key v ∷ rs else r ∷ rewrite key v rs

abbrev pub find_rule : ℕ → List PostingRule → Option PostingRule
find_rule key = first_row (λ r. r.id == key)

unfoldable pub update_posting_rule : ℕ → PostingRuleInput → Books → Outcome Books
unfolding rewrite posting_rule_data flush_rule
update_posting_rule key input b = do
  rule ← or_raise (find_rule key b.rules) not_found
  v ← posting_rule_data b input (some rule)
  flush_rule (rewrite key v b.rules) b

-- `ensure_deletable` of backend/app/core/deletion.py: a journal entry is the only row that refers
-- to a rule.
abbrev refers_to_rule : ℕ → JournalEntry → Bool
refers_to_rule key e = is_key e.posting_rule_id key

unfoldable pub delete_posting_rules : List ℕ → Books → Outcome Books
delete_posting_rules [] b = ok b
delete_posting_rules (key ∷ keys) b = elim (find_rule key b.rules) [
  | none ↦ delete_posting_rules keys b
  | some rule ↦ do
    raise_if (is_active rule.status) (conflict record_active)
    raise_if (is_found (first_row (refers_to_rule key) b.entries)) (conflict delete_blocked)
    delete_posting_rules keys (record b { rules = where_rows (λ r. not (r.id == key)) b.rules })
]
