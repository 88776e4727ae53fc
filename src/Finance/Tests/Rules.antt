-- ===== src/Finance/Tests/Rules.antt =====
-- Runs of the administration of posting rules.
use lcs_system.Shared.{
  ◌≡◌, ◌≢◌, ◌↔◌, refl, arith, true, none, some, [], ◌∷◌, pos, ok, err, conflict,
  ambiguous_posting_rule, duplicate_posting_rule, record_active, codes,
}
use lcs_system.Finance.Models.{Books, customer_invoice, active}
use lcs_system.Finance.PostingRules.{resolve}
use lcs_system.Finance.PostingRules.Administration.{
  PostingRuleInput, RuleValues, omitted, given, assert_unique_priority, index_holds, row_of,
  create_posting_rule, update_posting_rule, delete_posting_rules,
}
use lcs_system.Finance.PostingRules.Administration.Reached.{
  created, updated, deleted, here, then, reached-resolves, IsFeeKey,
  assert_unique_priority-index_holds,
}
use lcs_system.Finance.Tests.{or_books}
use lcs_system.Finance.Tests.Engine.{ruled}

-- A rule for one fee type, which the rules of `ruled` do not share a scope with.
abbrev fee_rule : PostingRuleInput
fee_rule = record {
  document_type = given customer_invoice;
  fee_type_id = given (some 4);
  debit_account = given (codes "1100");
  credit_account = given (codes "2");
  tax_account = omitted;
  status = omitted;
  priority = given (some (pos 7));
}

abbrev deactivated : PostingRuleInput
deactivated = record {
  document_type = omitted;
  fee_type_id = omitted;
  debit_account = omitted;
  credit_account = omitted;
  tax_account = omitted;
  status = given (codes "inactive");
  priority = omitted;
}

unfoldable with_fee : Books
unfolding create_posting_rule
with_fee = or_books (create_posting_rule fee_rule ruled)

is_created : create_posting_rule fee_rule ruled ≡ ok with_fee
unfolding with_fee lcs_system.Finance.PostingRules.Administration.resolve_account_ref
    lcs_system.Finance.PostingRules.validate_postable
is_created = refl

unfoldable without_first : Books
unfolding update_posting_rule with_fee
without_first = or_books (update_posting_rule 1 deactivated with_fee)

is_updated : update_posting_rule 1 deactivated with_fee ≡ ok without_first
unfolding without_first lcs_system.Finance.PostingRules.Administration.resolve_account_ref
    lcs_system.Finance.PostingRules.validate_postable
is_updated = refl

unfoldable thinned : Books
unfolding delete_posting_rules without_first
thinned = or_books (delete_posting_rules (1 ∷ []) without_first)

is_deleted : delete_posting_rules (1 ∷ []) without_first ≡ ok thinned
unfolding thinned lcs_system.Finance.PostingRules.Administration.resolve_account_ref
    lcs_system.Finance.PostingRules.validate_postable
is_deleted = refl

-- The scope and priority of an active rule are taken, and an active rule is not deleted.
refusals :
    (create_posting_rule (record fee_rule { fee_type_id = omitted }) ruled
      ≡ err (conflict duplicate_posting_rule))
    × (delete_posting_rules (2 ∷ []) ruled ≡ err (conflict record_active))
unfolding create_posting_rule lcs_system.Finance.PostingRules.Administration.resolve_account_ref
    lcs_system.Finance.PostingRules.validate_postable delete_posting_rules
refusals = (refl, refl)

is_admitted : index_holds ruled.rules ≡ true
unfolding index_holds
is_admitted = refl

reached-resolves_example :
    resolve thinned customer_invoice (some 4) ≢ err (conflict ambiguous_posting_rule)
reached-resolves_example =
    reached-resolves customer_invoice (some 4)
      (then (created fee_rule is_created)
        (then (updated 1 deactivated is_updated) (then (deleted (1 ∷ []) is_deleted) here)))
      is_admitted

abbrev new_values : RuleValues
new_values = record {
  document_type = customer_invoice;
  fee_type_id = some 4;
  debit_account_id = 1;
  credit_account_id = 2;
  tax_account_id = none;
  status = active;
  priority = pos 7;
}

no_fee : IsFeeKey none
no_fee h = cc

is_fee : IsFeeKey (some 4)
is_fee h = ground arith

assert_unique_priority-index_holds_example :
    (assert_unique_priority ruled.rules new_values none ≡ ok tt)
    ↔ (index_holds (row_of 10 new_values ∷ ruled.rules) ≡ true)
assert_unique_priority-index_holds_example =
    assert_unique_priority-index_holds ruled.rules new_values 10 is_admitted (no_fee, (no_fee, tt))
      is_fee
