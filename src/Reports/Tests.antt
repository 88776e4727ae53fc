-- ===== src/Reports/Tests.antt =====
-- A trial balance of the ledger of Finance/Tests.
use lcs_system.Shared.{
  ℕ, ◌≡◌, refl, ◌==◌, if◌then◌else◌, Bool, true, false, none, some, List, [], ◌∷◌, ltb, pos,
  Outcome, ok, err, Text, arith, All, ◌+ℤ◌, map,
}
use lcs_system.Finance.Ledger.Balanced.{IsWithin}
use lcs_system.Finance.Tests.{settled_books, settled_books-IsSoundBooks, today}
use lcs_system.Reports.{ReportFilters, sum_by}
use lcs_system.Reports.Pages.{first_pages, first_pages-all}
use lcs_system.Reports.TrialBalance.{
  TrialBalance, TrialBalanceFilters, trial_balance, no_columns, period_difference,
}
use lcs_system.Reports.TrialBalance.Sums.{AreUnique}
use lcs_system.Reports.TrialBalance.Totals.{HasAccounts, difference, period_part, posted_to}
use lcs_system.Reports.TrialBalance.Control.{
  trial_balance-ledger, trial_balance-balanced, trial_balance-IsWithin, line_count,
}

-- Texts by code points.
abbrev collation : Text → Text → Bool
collation [] _ = true
collation (_ ∷ _) [] = false
collation (c ∷ s) (d ∷ t) = let rest = collation s t in if c == d then rest else ltb c d

abbrev filters : TrialBalanceFilters
filters = record {
  report = record {
    from_date = some today;
    to_date = none;
    fiscal_year = none;
    page = 1;
    page_size = 50;
  };
  account_from = none;
  account_to = none;
}

abbrev or_report : Outcome TrialBalance → TrialBalance
or_report (ok t) = t
or_report (err _) = record {
  items = [];
  total = 0;
  totals = no_columns;
  balanced = false;
  imbalance = pos 0;
  warned = true;
  from_date = none;
  to_date = none;
}

unfoldable report : TrialBalance
unfolding trial_balance
report = or_report (trial_balance collation settled_books filters)

is_made : trial_balance collation settled_books filters ≡ ok report
unfolding report lcs_system.Reports.resolve_range
is_made = refl

-- The accounts that the entry debits and credits, by their codes.
reported : map (λ i. i.account_id) report.items ≡ 1 ∷ 2 ∷ []
unfolding report lcs_system.Reports.resolve_range
reported = refl

are_unique : AreUnique settled_books.accounts
are_unique = ((refl, (refl, tt)), ((refl, tt), (tt, tt)))

have_accounts : All (HasAccounts settled_books.accounts) settled_books.entries
have_accounts = ((refl, (refl, tt)), tt)

trial_balance-ledger_example :
    (report.imbalance ≡ sum_by difference (posted_to report.to_date settled_books.entries))
    × (period_difference report.totals
        ≡ sum_by (period_part report.from_date) (posted_to report.to_date settled_books.entries))
trial_balance-ledger_example =
    trial_balance-ledger collation settled_books filters are_unique have_accounts refl refl is_made

trial_balance-balanced_example : report.balanced ≡ true
unfolding lcs_system.Finance.Ledger.sum_of ◌+ℤ◌
trial_balance-balanced_example =
    trial_balance-balanced collation settled_books filters are_unique have_accounts refl refl
      ((λ _. refl), tt) is_made

trial_balance-IsWithin_example :
    IsWithin (line_count (posted_to report.to_date settled_books.entries)) report.imbalance (pos 0)
trial_balance-IsWithin_example =
    trial_balance-IsWithin collation settled_books filters settled_books-IsSoundBooks are_unique
      have_accounts refl refl is_made

abbrev three : List ℕ
three = 4 ∷ 5 ∷ 6 ∷ []

first_pages-all_example : first_pages (record filters.report { page_size = 2 }) three 2 ≡ three
first_pages-all_example =
    first_pages-all (record filters.report { page_size = 2 }) three 2 (omega arith)
