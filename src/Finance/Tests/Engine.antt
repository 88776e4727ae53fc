-- ===== src/Finance/Tests/Engine.antt =====
-- Runs of the posting engine, the rules and the rates.
use mathlib.Core.List.{Perm}
use lcs_system.Shared.{
  ℕ, ◌≡◌, refl, arith, true, none, some, List, [], ◌∷◌, ℤ, pos, ◌+ℤ◌, ◌*ℤ◌, ◌-ℤ◌, ◌≤ℤ◌, ltb_ℤ,
  Outcome, ok, err, All, where_rows, validation_failed, conflict, journal_unbalanced,
  ambiguous_posting_rule,
}
use lcs_system.Finance.Fx.{
  Decimal, decimal, finite, Value, normalize_rate, is_valid_rate, round_half_up,
}
use lcs_system.Finance.Fx.Rates.{
  IsStoredRate, normalize_rate-IsStoredRate, normalize_stored, valid_rate_split,
}
use lcs_system.Finance.Models.{Books, PostingRule, customer_invoice, active, PostingRule}
use lcs_system.Finance.PostingRules.{PostingRuleAccounts, legacy_default, in_tier, tier, resolve}
use lcs_system.Finance.PostingRules.Tier.{tier-some, tier-ambiguous}
use lcs_system.Finance.Posting.{DocumentLineInput, JournalDraft, build, draft_lines}
use lcs_system.Finance.Posting.Construction.{build-balances, fallback-refused}
use lcs_system.Finance.Tests.{books}

abbrev pub rule : ℕ → ℤ → PostingRule
rule key priority = record {
  id = key;
  document_type = customer_invoice;
  fee_type_id = none;
  debit_account_id = 1;
  credit_account_id = 2;
  tax_account_id = some 3;
  status = active;
  priority = priority;
}

abbrev pub ruled : Books
ruled = record books { rules = rule 1 (pos 5) ∷ rule 2 (pos 7) ∷ [] }

abbrev charge : ℤ → ℤ → DocumentLineInput
charge amount tax = record { amount = amount; tax = tax; fee_type_id = none; account_id = none }

abbrev no_accounts : PostingRuleAccounts
no_accounts = record {
  debit = record { id = 0; account_code = []; is_postable = true; status = active };
  credit = record { id = 0; account_code = []; is_postable = true; status = active };
  tax = none;
  source = legacy_default;
  rule_id = none;
  priority = none;
}

abbrev or_accounts : Outcome PostingRuleAccounts → PostingRuleAccounts
or_accounts (ok a) = a
or_accounts (err _) = no_accounts

abbrev or_draft : Outcome JournalDraft → JournalDraft
or_draft (ok d) = d
or_draft (err _) = record { lines = []; rule_id = none }

unfoldable control : PostingRuleAccounts
unfolding resolve
control = or_accounts (resolve ruled customer_invoice none)

is_resolved : resolve ruled customer_invoice none ≡ ok control
unfolding control tier lcs_system.Finance.PostingRules.rule_accounts
    lcs_system.Finance.PostingRules.validate_postable
is_resolved = refl

unfoldable lines : List DocumentLineInput
lines = charge (pos 60) (pos 5) ∷ charge (pos 40) (pos 0) ∷ []

unfoldable draft : JournalDraft
unfolding draft_lines lines control
draft = or_draft (draft_lines ruled customer_invoice control (pos 100) lines)

is_drafted : draft_lines ruled customer_invoice control (pos 100) lines ≡ ok draft
unfolding draft lcs_system.Finance.Posting.strategy_for lcs_system.Finance.Posting.add_detailed tier
    lcs_system.Finance.PostingRules.rule_accounts lcs_system.Finance.PostingRules.validate_postable
    ◌-ℤ◌ lcs_system.Finance.Posting.detail_account
is_drafted = refl

build-balances_example : build ruled customer_invoice (pos 100) lines ≡ ok draft
unfolding lines lcs_system.Finance.Posting.Balance.line_total ◌+ℤ◌
    lcs_system.Finance.Posting.strategy_for control tier
    lcs_system.Finance.PostingRules.rule_accounts lcs_system.Finance.PostingRules.validate_postable
    ◌-ℤ◌
build-balances_example =
    build-balances ruled customer_invoice control (pos 100) lines draft (omega arith)
      ((omega arith, omega arith), ((omega arith, omega arith), tt)) refl refl is_resolved
      is_drafted

-- A line that is tax alone.
unfoldable tax_lines : List DocumentLineInput
tax_lines = charge (pos 100) (pos 100) ∷ []

unfoldable tax_draft : JournalDraft
unfolding draft_lines tax_lines control
tax_draft = or_draft (draft_lines ruled customer_invoice control (pos 100) tax_lines)

is_tax_drafted : draft_lines ruled customer_invoice control (pos 100) tax_lines ≡ ok tax_draft
unfolding tax_draft lcs_system.Finance.Posting.strategy_for lcs_system.Finance.Posting.add_detailed
    tier lcs_system.Finance.PostingRules.rule_accounts
    lcs_system.Finance.PostingRules.validate_postable ◌-ℤ◌
is_tax_drafted = refl

fallback-refused_example :
    build ruled customer_invoice (pos 100) tax_lines ≡ err (conflict journal_unbalanced)
unfolding tax_lines lcs_system.Finance.Posting.Balance.line_total ◌+ℤ◌
    lcs_system.Finance.Posting.strategy_for control tier
    lcs_system.Finance.PostingRules.rule_accounts lcs_system.Finance.PostingRules.validate_postable
    ◌-ℤ◌
fallback-refused_example =
    fallback-refused ruled customer_invoice control (pos 100) tax_lines tax_draft (omega arith)
      ((omega arith, omega arith), tt) refl refl refl is_resolved is_tax_drafted

is_chosen : tier ruled.rules customer_invoice none ≡ ok (some (rule 2 (pos 7)))
unfolding tier
is_chosen = refl

tier-some_example :
    (others : List PostingRule) × Perm
      (where_rows (in_tier customer_invoice none) ruled.rules)
      (rule 2 (pos 7) ∷ others)
    × All (λ q. ltb_ℤ (PostingRule.priority q) (pos 7) ≡ true) others
tier-some_example = tier-some ruled.rules customer_invoice none (rule 2 (pos 7)) is_chosen

abbrev equal_rules : List PostingRule
equal_rules = rule 1 (pos 7) ∷ rule 2 (pos 7) ∷ []

is_ambiguous : tier equal_rules customer_invoice none ≡ err (conflict ambiguous_posting_rule)
unfolding tier
is_ambiguous = refl

tier-ambiguous_example :
    (r q : PostingRule) × (others : List PostingRule) × Perm
      (where_rows (in_tier customer_invoice none) equal_rules)
      (r ∷ q ∷ others)
    × (q.priority ≡ r.priority)
    × All (λ x. PostingRule.priority x ≤ℤ r.priority) others
tier-ambiguous_example = tier-ambiguous equal_rules customer_invoice none is_ambiguous

abbrev rate : Decimal
rate = record { coefficient = pos 410000000000; places = 8 }

is_stored :
    normalize_rate (decimal (finite (record { coefficient = pos 41000; places = 1 }))) ≡ ok rate
unfolding normalize_rate lcs_system.Finance.Fx.normalize_number lcs_system.Finance.Fx.quantize ◌*ℤ◌
is_stored = refl

normalize_rate-IsStoredRate_example : IsStoredRate rate
normalize_rate-IsStoredRate_example =
    normalize_rate-IsStoredRate (decimal (finite (record { coefficient = pos 41000; places = 1 })))
      is_stored

rate-IsStoredRate : IsStoredRate rate
rate-IsStoredRate =
    normalize_rate-IsStoredRate (decimal (finite (record { coefficient = pos 41000; places = 1 })))
      is_stored

normalize_stored_example : normalize_rate (decimal (finite rate)) ≡ ok rate
normalize_stored_example = normalize_stored rate rate-IsStoredRate

-- 10^-9 is valid and is refused.
valid_rate_split_example :
    let tiny = decimal (finite (record { coefficient = pos 1; places = 9 })) in
    (is_valid_rate tiny ≡ true) × (normalize_rate tiny ≡ err validation_failed)
valid_rate_split_example = valid_rate_split 1 9 (omega arith) (omega arith)
