-- ===== src/Finance/PostingRules.antt =====
-- backend/app/modules/finance/posting_rules.py: which accounts a document type and fee type post
-- to. A query is a filter of the table's rows; ORDER BY is an insertion sort, LIMIT a prefix.
pub mod Tier
pub mod Administration
use lcs_system.Shared.{
  ℕ, zero, suc, leb, ◌==◌, if◌then◌else◌, Bool, true, false, ◌&&◌, ◌||◌, not, Option, none, some,
  List, [], ◌∷◌, ℤ, ltb_ℤ, eqb_ℤ, Outcome, ok, err, ◌>>=◌, ◌>>◌, raise_if, or_raise,
  validation_failed, conflict, ambiguous_posting_rule, same_key, where_rows, first_row, Text, codes,
  text_eqb,
}
use lcs_system.Finance.Models.{
  ChartOfAccount, RecordStatus, active, inactive, PostingRule, DocumentType, customer_invoice,
  credit_note, supplier_bill, supplier_credit_note, customer_receipt, supplier_payment,
  other_income, other_expense, transfer, adjustment, other, Books,
}

-- `==` on document types, by their place in the catalogue.
abbrev pub type_code : DocumentType → ℕ
type_code customer_invoice = 0
type_code credit_note = 1
type_code supplier_bill = 2
type_code supplier_credit_note = 3
type_code customer_receipt = 4
type_code supplier_payment = 5
type_code other_income = 6
type_code other_expense = 7
type_code transfer = 8
type_code adjustment = 9
type_code (other n) = suc (suc (suc (suc (suc (suc (suc (suc (suc (suc n)))))))))

abbrev pub same_type : DocumentType → DocumentType → Bool
same_type a b = type_code a == type_code b

abbrev pub is_active : RecordStatus → Bool
is_active active = true
is_active inactive = false

-- Where a resolved account came from.
pub data RuleSource : Type 0 where
  exact document_default legacy_default : RuleSource

pub record PostingRuleAccounts : Type 0 where
  pub debit : ChartOfAccount
  pub credit : ChartOfAccount
  pub tax : Option ChartOfAccount
  pub source : RuleSource
  pub rule_id : Option ℕ
  pub priority : Option ℤ

unfoldable pub validate_postable : Option ChartOfAccount → Outcome ChartOfAccount
validate_postable none = err validation_failed
validate_postable (some a) = do
  raise_if (not a.is_postable) validation_failed
  raise_if (not (is_active a.status)) validation_failed
  ok a

-- The scope of a tier: a document type, and a fee type or none.
abbrev pub in_tier : DocumentType → Option ℕ → PostingRule → Bool
in_tier t fee r = same_type r.document_type t && same_key r.fee_type_id fee && is_active r.status

-- ORDER BY priority DESC, id
abbrev pub comes_before : PostingRule → PostingRule → Bool
comes_before r q = ltb_ℤ q.priority r.priority || (eqb_ℤ q.priority r.priority && leb r.id q.id)

unfoldable pub insert_rule : PostingRule → List PostingRule → List PostingRule
insert_rule r [] = r ∷ []
insert_rule r (q ∷ qs) =
    let later = q ∷ insert_rule r qs in if comes_before r q then r ∷ q ∷ qs else later

unfoldable pub order_rules : List PostingRule → List PostingRule
unfolding insert_rule
order_rules [] = []
order_rules (r ∷ rs) = insert_rule r (order_rules rs)

-- The two rows of `.limit(_TIER_LIMIT)`, and the winner among them.
unfoldable pub pick : List PostingRule → Outcome (Option PostingRule)
pick [] = ok none
pick (top ∷ []) = ok (some top)
pick (top ∷ second ∷ _) =
    if eqb_ℤ second.priority top.priority
    then err (conflict ambiguous_posting_rule)
    else ok (some top)

unfoldable pub tier : List PostingRule → DocumentType → Option ℕ → Outcome (Option PostingRule)
unfolding pick order_rules
tier rules t fee = pick (order_rules (where_rows (in_tier t fee) rules))

-- Exact scope first, then the document default.
unfoldable pub select_rule :
    List PostingRule → DocumentType → Option ℕ → Outcome (Option PostingRule)
select_rule rules t none = tier rules t none
select_rule rules t (some fee) = do
  found ← tier rules t (some fee)
  elim found [ some r ↦ ok (some r) | none ↦ tier rules t none ]

abbrev pub account_by_id : List ChartOfAccount → ℕ → Option ChartOfAccount
account_by_id accounts key = first_row (λ a. a.id == key) accounts

abbrev pub account_by_code : List ChartOfAccount → Text → Option ChartOfAccount
account_by_code accounts c = first_row (λ a. text_eqb a.account_code c) accounts

-- `DEFAULT_ACCOUNTS` of service.py
abbrev pub default_accounts : DocumentType → Option (Text × Text)
default_accounts customer_invoice = some (codes "1100", codes "4010")
default_accounts supplier_bill = some (codes "5010", codes "2010")
default_accounts customer_receipt = some (codes "1020", codes "1100")
default_accounts supplier_payment = some (codes "2010", codes "1020")
default_accounts other_income = some (codes "1020", codes "4020")
default_accounts other_expense = some (codes "5030", codes "1020")
default_accounts transfer = some (codes "1020", codes "1010")
default_accounts adjustment = some (codes "5030", codes "1020")
default_accounts credit_note = some (codes "4010", codes "1100")
default_accounts supplier_credit_note = some (codes "2010", codes "5010")
default_accounts (other _) = none

unfoldable pub legacy_accounts : List ChartOfAccount → DocumentType → Outcome PostingRuleAccounts
legacy_accounts accounts t = do
  (first, second) ← or_raise (default_accounts t) validation_failed
  debit ← validate_postable (account_by_code accounts first)
  credit ← validate_postable (account_by_code accounts second)
  ok (record {
    debit = debit;
    credit = credit;
    tax = none;
    source = legacy_default;
    rule_id = none;
    priority = none;
  })

-- `if rule.tax_account_id`: a key of 0 counts as none.
abbrev pub tax_account : List ChartOfAccount → Option ℕ → Outcome (Option ChartOfAccount)
tax_account accounts none = ok none
tax_account accounts (some zero) = ok none
tax_account accounts (some (suc key)) = do
  a ← validate_postable (account_by_id accounts (suc key))
  ok (some a)

abbrev source_of : Option ℕ → RuleSource
source_of none = document_default
source_of (some _) = exact

unfoldable pub rule_accounts : List ChartOfAccount → PostingRule → Outcome PostingRuleAccounts
rule_accounts accounts rule = do
  debit ← validate_postable (account_by_id accounts rule.debit_account_id)
  credit ← validate_postable (account_by_id accounts rule.credit_account_id)
  tax ← tax_account accounts rule.tax_account_id
  ok (record {
    debit = debit;
    credit = credit;
    tax = tax;
    source = source_of rule.fee_type_id;
    rule_id = some rule.id;
    priority = some rule.priority;
  })

unfoldable pub resolve : Books → DocumentType → Option ℕ → Outcome PostingRuleAccounts
unfolding select_rule
resolve b t fee = do
  found ← select_rule b.rules t fee
  elim found [ none ↦ legacy_accounts b.accounts t | some rule ↦ rule_accounts b.accounts rule ]
