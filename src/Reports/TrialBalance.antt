-- ===== src/Reports/TrialBalance.antt =====
-- `trial_balance` of backend/app/modules/reports/ledger_reports.py with the grouped query of
-- repository.py. The database's order of account codes is an argument.
pub mod Sums
pub mod Totals
pub mod Control
use lcs_system.Shared.{
  ℕ, ltb, ◌==◌, if◌then◌else◌, Bool, true, false, ◌&&◌, not, Option, none, some, List, [], ◌∷◌, map,
  ℤ, pos, ◌+ℤ◌, ◌-ℤ◌, neg_ℤ, leb_ℤ, eqb_ℤ, Outcome, ok, ◌>>=◌, ◌>>◌, raise_if, validation_failed,
  where_rows, is_empty, length, sort_by, Text,
}
use lcs_system.Finance.Models.{Date, ChartOfAccount, Books}
use lcs_system.Reports.{
  ReportFilters, resolve_range, LedgerRow, ltb_date, posted_rows, sum_by, page_of,
}

pub record TrialBalanceFilters : Type 0 where
  pub report : ReportFilters
  pub account_from : Option Text
  pub account_to : Option Text

-- A row of the grouped query.
pub record AccountBalance : Type 0 where
  pub account_id : ℕ
  pub opening_debit : ℤ
  pub opening_credit : ℤ
  pub period_debit : ℤ
  pub period_credit : ℤ

-- The six money columns.
pub record Columns : Type 0 where
  pub opening_debit : ℤ
  pub opening_credit : ℤ
  pub period_debit : ℤ
  pub period_credit : ℤ
  pub closing_debit : ℤ
  pub closing_credit : ℤ

pub record TrialBalanceItem : Type 0 where
  pub account_id : ℕ
  pub columns : Columns

pub record TrialBalance : Type 0 where
  pub items : List TrialBalanceItem
  pub total : ℕ
  pub totals : Columns
  pub balanced : Bool
  pub imbalance : ℤ
  pub warned : Bool
  pub from_date : Option Date
  pub to_date : Option Date

-- `JournalEntry.posting_date < from_date if from_date else false()`
abbrev pub is_opening : Option Date → LedgerRow → Bool
is_opening none r = false
is_opening (some d) r = ltb_date r.entry.posting_date d

abbrev pub debit_of : LedgerRow → ℤ
debit_of r = r.line.base_debit_amount

abbrev pub credit_of : LedgerRow → ℤ
credit_of r = r.line.base_credit_amount

abbrev pub on_account : ℕ → LedgerRow → Bool
on_account key r = r.line.account_id == key

unfoldable pub balance_row : Option Date → ℕ → List LedgerRow → AccountBalance
balance_row from key rows =
    let opening = where_rows (is_opening from) rows in
    let period = where_rows (λ r. not (is_opening from r)) rows in
    record {
      account_id = key;
      opening_debit = sum_by debit_of opening;
      opening_credit = sum_by credit_of opening;
      period_debit = sum_by debit_of period;
      period_credit = sum_by credit_of period;
    }

-- GROUP BY account: an inner join has a group only where there is a row.
unfoldable pub group_rows : Option Date → List ChartOfAccount → List LedgerRow → List AccountBalance
unfolding balance_row
group_rows from [] rows = []
group_rows from (a ∷ accounts) rows =
    let mine = where_rows (on_account a.id) rows in
    let rest = group_rows from accounts rows in
    if is_empty mine then rest else balance_row from a.id mine ∷ rest

-- `if account_from:`, a test that the empty text fails too.
abbrev pub within : (Text → Text → Bool) → Option Text → Option Text → ChartOfAccount → Bool
within collates from to a = above from && below to
  where
    above : Option Text → Bool
    above none = true
    above (some []) = true
    above (some code) = collates code a.account_code

    below : Option Text → Bool
    below none = true
    below (some []) = true
    below (some code) = collates a.account_code code

unfoldable pub trial_balance_balances :
    (Text → Text → Bool)
    → Option Date
    → Option Date
    → Option Text
    → Option Text
    → Books
    → List AccountBalance
unfolding group_rows posted_rows
trial_balance_balances collates from to account_from account_to b =
    group_rows from
      (sort_by (λ x y. collates x.account_code y.account_code)
        (where_rows (within collates account_from account_to) b.accounts))
      (posted_rows to b.entries)

abbrev pub side : ℤ → ℤ × ℤ
side net = if leb_ℤ (pos 0) net then (net, pos 0) else (pos 0, neg_ℤ net)

unfoldable pub item_of : AccountBalance → TrialBalanceItem
item_of row =
    let opening_net = row.opening_debit -ℤ row.opening_credit in
    let opening = side opening_net in
    let closing = side (opening_net +ℤ row.period_debit -ℤ row.period_credit) in
    record {
      account_id = row.account_id;
      columns = record {
        opening_debit = opening.0;
        opening_credit = opening.1;
        period_debit = row.period_debit;
        period_credit = row.period_credit;
        closing_debit = closing.0;
        closing_credit = closing.1;
      };
    }

abbrev pub no_columns : Columns
no_columns = record {
  opening_debit = pos 0;
  opening_credit = pos 0;
  period_debit = pos 0;
  period_credit = pos 0;
  closing_debit = pos 0;
  closing_credit = pos 0;
}

-- `totals[key] += item[key]`
abbrev add_columns : Columns → Columns → Columns
add_columns s c = record {
  opening_debit = s.opening_debit +ℤ c.opening_debit;
  opening_credit = s.opening_credit +ℤ c.opening_credit;
  period_debit = s.period_debit +ℤ c.period_debit;
  period_credit = s.period_credit +ℤ c.period_credit;
  closing_debit = s.closing_debit +ℤ c.closing_debit;
  closing_credit = s.closing_credit +ℤ c.closing_credit;
}

unfoldable pub add_items : Columns → List TrialBalanceItem → Columns
add_items s [] = s
add_items s (i ∷ items) = add_items (add_columns s i.columns) items

unfoldable pub trial_balance_totals : List TrialBalanceItem → Columns
unfolding add_items
trial_balance_totals items = add_items no_columns items

abbrev pub closing_difference : Columns → ℤ
closing_difference t = t.closing_debit -ℤ t.closing_credit

abbrev pub period_difference : Columns → ℤ
period_difference t = t.period_debit -ℤ t.period_credit

abbrev pub is_balanced : Columns → Bool
is_balanced t = eqb_ℤ (closing_difference t) (pos 0) && eqb_ℤ (period_difference t) (pos 0)

-- `a > b` on str, by code points.
abbrev ltb_text : Text → Text → Bool
ltb_text [] [] = false
ltb_text [] (_ ∷ _) = true
ltb_text (_ ∷ _) [] = false
ltb_text (c ∷ s) (d ∷ t) = let rest = ltb_text s t in if c == d then rest else ltb c d

abbrev bad_accounts : Option Text → Option Text → Bool
bad_accounts (some from) (some to) = not (is_empty from) && not (is_empty to) && ltb_text to from
bad_accounts _ _ = false

unfoldable pub trial_balance :
    (Text → Text → Bool) → Books → TrialBalanceFilters → Outcome TrialBalance
unfolding trial_balance_balances item_of trial_balance_totals
trial_balance collates b f = do
  range ← resolve_range b.periods f.report
  raise_if (bad_accounts f.account_from f.account_to) validation_failed
  let rows = trial_balance_balances collates range.0 range.1 f.account_from f.account_to b
  let items = map item_of rows
  let totals = trial_balance_totals items
  ok (record {
    items = page_of f.report items;
    total = length items;
    totals = totals;
    balanced = is_balanced totals;
    imbalance = closing_difference totals;
    warned = not (is_balanced totals);
    from_date = range.0;
    to_date = range.1;
  })
