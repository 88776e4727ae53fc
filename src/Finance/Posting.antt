-- ===== src/Finance/Posting.antt =====
-- backend/app/modules/finance/posting.py: the balanced journal of a financial document.
pub mod Balance
pub mod Construction
use lcs_system.Shared.{
  ℕ, zero, suc, if◌then◌else◌, Bool, true, false, ◌&&◌, not, Option, none, some, List, [], ◌∷◌,
  ◌++◌, ℤ, pos, ◌+ℤ◌, ◌-ℤ◌, ltb_ℤ, leb_ℤ, eqb_ℤ, min_ℤ, Outcome, ok, err, ◌>>=◌, ◌>>◌, raise_if,
  or_raise, validation_failed, conflict, journal_unbalanced, is_empty,
}
use lcs_system.Finance.Models.{
  ChartOfAccount, DocumentType, customer_invoice, credit_note, supplier_bill, supplier_credit_note,
  customer_receipt, supplier_payment, other_income, other_expense, transfer, adjustment, other,
  Books,
}
use lcs_system.Finance.PostingRules.{PostingRuleAccounts, resolve, account_by_id}

pub data JournalSide : Type 0 where
  control_debit control_credit : JournalSide

pub record DocumentLineInput : Type 0 where
  pub amount : ℤ
  pub tax : ℤ
  pub fee_type_id : Option ℕ
  pub account_id : Option ℕ

pub record DraftLine : Type 0 where
  pub account : ChartOfAccount
  pub amount : ℤ
  pub debit : Bool

pub record JournalDraft : Type 0 where
  pub lines : List DraftLine
  pub rule_id : Option ℕ

abbrev pub side_sum : Bool → List DraftLine → ℤ
side_sum side [] = pos 0
side_sum true (l ∷ ls) = (if l.debit then l.amount else pos 0) +ℤ side_sum true ls
side_sum false (l ∷ ls) = (if l.debit then pos 0 else l.amount) +ℤ side_sum false ls

abbrev pub debit_total : JournalDraft → ℤ
debit_total d = side_sum true d.lines

abbrev pub credit_total : JournalDraft → ℤ
credit_total d = side_sum false d.lines

-- Append a line, skipping amounts that are not above zero.
unfoldable pub add : ChartOfAccount → ℤ → Bool → JournalDraft → JournalDraft
add account amount debit d = if leb_ℤ amount (pos 0) then d else record d {
  lines = d.lines ++ (record { account = account; amount = amount; debit = debit } ∷ []);
}

unfoldable pub assert_balanced : JournalDraft → Outcome (Unit {0})
assert_balanced d =
    raise_if (not (eqb_ℤ (debit_total d) (credit_total d))) (conflict journal_unbalanced)

pub record PostingStrategy : Type 0 where
  pub side : JournalSide
  pub detailed : Bool
  pub splits_tax : Bool

abbrev detailed_plan : JournalSide → PostingStrategy
detailed_plan s = record { side = s; detailed = true; splits_tax = true }

abbrev simple_plan : JournalSide → PostingStrategy
simple_plan s = record { side = s; detailed = false; splits_tax = false }

-- `STRATEGIES`, and `DEFAULT_STRATEGY` for any other type.
unfoldable pub strategy_for : DocumentType → PostingStrategy
strategy_for customer_invoice = detailed_plan control_debit
strategy_for credit_note = detailed_plan control_credit
strategy_for supplier_bill = detailed_plan control_credit
strategy_for supplier_credit_note = detailed_plan control_debit
strategy_for customer_receipt = simple_plan control_credit
strategy_for supplier_payment = simple_plan control_credit
strategy_for other_income = simple_plan control_debit
strategy_for other_expense = simple_plan control_credit
strategy_for transfer = simple_plan control_debit
strategy_for adjustment = simple_plan control_credit
strategy_for (other _) = simple_plan control_debit

abbrev pub is_control_debit : JournalSide → Bool
is_control_debit control_debit = true
is_control_debit control_credit = false

abbrev pub line_detail_is_credit : DocumentType → Bool
line_detail_is_credit t = is_control_debit (strategy_for t).side

-- Prefer an account chosen on the line, else the rule for its fee type.
unfoldable pub detail_account : Books → DocumentType → DocumentLineInput → Outcome ChartOfAccount
unfolding strategy_for
detail_account b t line = elim line.account_id [
  | some key ↦ or_raise (account_by_id b.accounts key) validation_failed
  | none ↦ do
    resolved ← resolve b t line.fee_type_id
    ok (if line_detail_is_credit t then resolved.credit else resolved.debit)
]

unfoldable pub add_two_sided : PostingRuleAccounts → ℤ → JournalDraft → JournalDraft
unfolding add
add_two_sided control total d = add control.credit total false (add control.debit total true d)

-- The tax of a line that goes to the tax account, and whether there is one.
abbrev split_tax :
    PostingStrategy → PostingRuleAccounts → DocumentLineInput → Option (ChartOfAccount × ℤ)
split_tax plan control line =
    if plan.splits_tax
    then (elim control.tax [ none ↦ none | some a ↦ some (a, min_ℤ line.tax line.amount) ])
    else none

abbrev pub net_amount : Option (ChartOfAccount × ℤ) → DocumentLineInput → ℤ
net_amount none line = line.amount
net_amount (some (_, tax)) line = line.amount -ℤ tax

abbrev pub add_tax : Option (ChartOfAccount × ℤ) → Bool → JournalDraft → JournalDraft
add_tax none debit d = d
add_tax (some (a, tax)) debit d = if ltb_ℤ (pos 0) tax then add a tax debit d else d

-- One turn of the loop over the lines: the draft, and whether a detail line was resolved.
unfoldable pub add_line :
    Books
    → DocumentType
    → PostingStrategy
    → PostingRuleAccounts
    → DocumentLineInput
    → JournalDraft × Bool
    → Outcome (JournalDraft × Bool)
unfolding add
add_line b t plan control line (d, resolved_any) =
    let debit = not (is_control_debit plan.side) in
    let split = split_tax plan control line in
    let amount = net_amount split line in
    let d' = add_tax split debit d in
    let posted = (do account ← detail_account b t line; ok (add account amount debit d', true)) in
    if leb_ℤ amount (pos 0) then ok (d', resolved_any) else posted

unfoldable pub add_lines :
    Books
    → DocumentType
    → PostingStrategy
    → PostingRuleAccounts
    → List DocumentLineInput
    → JournalDraft × Bool
    → Outcome (JournalDraft × Bool)
unfolding add_line
add_lines b t plan control [] s = ok s
add_lines b t plan control (line ∷ lines) s =
    add_line b t plan control line s >>= λ s'. add_lines b t plan control lines s'

unfoldable pub add_control : PostingStrategy → PostingRuleAccounts → ℤ → JournalDraft → JournalDraft
unfolding add
add_control plan control total d =
    let detail_is_credit = is_control_debit plan.side in
    add (if detail_is_credit then control.debit else control.credit) total detail_is_credit d

unfoldable pub add_detailed :
    Books
    → DocumentType
    → PostingStrategy
    → PostingRuleAccounts
    → ℤ
    → List DocumentLineInput
    → JournalDraft
    → Outcome JournalDraft
unfolding add_lines add_control
add_detailed b t plan control total lines d = do
  (d', resolved_any) ← add_lines b t plan control lines (add_control plan control total d, false)
  ok (if resolved_any then d' else add control.credit total false d')

-- The draft before it is checked.
unfoldable pub draft_lines :
    Books → DocumentType → PostingRuleAccounts → ℤ → List DocumentLineInput → Outcome JournalDraft
draft_lines b t control total lines =
    let plan = strategy_for t in
    let d : JournalDraft = record { lines = []; rule_id = control.rule_id } in
    let detailed = add_detailed b t plan control total lines d in
    if plan.detailed && not (is_empty lines) then detailed else ok (add_two_sided control total d)

unfoldable pub build : Books → DocumentType → ℤ → List DocumentLineInput → Outcome JournalDraft
build b t total lines = do
  raise_if (leb_ℤ total (pos 0)) validation_failed
  control ← resolve b t none
  d ← draft_lines b t control total lines
  assert_balanced d
  ok d
