-- ===== src/Reports/TrialBalance/Totals.antt =====
-- The totals of a trial balance as sums over the posted entries.
use lcs_system.Shared.{
  ℕ, ◌≡◌, refl, sym, ◌∙◌, ap, if◌then◌else◌, Bool, true, false, ◌&&◌, Option, none, some, List, [],
  ◌∷◌, ◌++◌, map, ℤ, pos, ◌+ℤ◌, ◌-ℤ◌, int_laws, where_rows, sort_by, Text, All, All-append,
  All-where_rows, Bool-cases, inl, inr,
}
use lcs_system.Finance.Models.{Date, ChartOfAccount, JournalEntry, JournalEntryLine, Books}
use lcs_system.Finance.Ledger.{sum_of, base_debits, base_credits}
use lcs_system.Reports.{
  LedgerRow, row_of_line, join_lines, posted_rows, sum_by, is_posted, not_after, ltb_date,
}
use lcs_system.Reports.TrialBalance.{
  Columns, trial_balance_balances, trial_balance_totals, item_of, group_rows, balance_row,
  add_items, no_columns, TrialBalanceItem, closing_difference, period_difference, within,
}
use lcs_system.Reports.TrialBalance.Sums.{
  AreUnique, IsCharted, over_accounts, sum_by-group_rows, sum_by-sort_by, net, net_in_period, on_it,
  closing-balance_row, period-balance_row, closing-add_items, period-add_items, zero_+ℤ,
}

-- Base debits less base credits of an entry.
abbrev pub difference : JournalEntry → ℤ
difference e = base_debits e.lines -ℤ base_credits e.lines

abbrev pub before_period : Option Date → JournalEntry → Bool
before_period none e = false
before_period (some d) e = ltb_date e.posting_date d

abbrev pub period_part : Option Date → JournalEntry → ℤ
period_part from e = if before_period from e then pos 0 else difference e

-- The posted entries up to a date.
abbrev pub posted_to : Option Date → List JournalEntry → List JournalEntry
posted_to to entries = where_rows (λ e. is_posted e.status && not_after to e) entries

-- The chart has every account of an entry's lines.
abbrev pub HasAccounts : List ChartOfAccount → JournalEntry → Type 0
HasAccounts accounts e = All (λ l. IsCharted accounts (row_of_line e l)) e.lines

sum_by-append :
    {A : Type 0} (h : A → ℤ) (xs ys : List A) → sum_by h (xs ++ ys) ≡ sum_by h xs +ℤ sum_by h ys
sum_by-append h [] ys = sym (zero_+ℤ _)
sum_by-append h (x ∷ xs) ys = grind (int_laws, sum_by-append h xs ys)

sum_by-map :
    {A B : Type 0} (h : B → ℤ) (g : A → B) (xs : List A)
    → sum_by h (map g xs) ≡ sum_by (λ x. h (g x)) xs
sum_by-map h g [] = refl
sum_by-map h g (x ∷ xs) = rw (sum_by-map h g xs) refl

sum_by-eq :
    {A : Type 0} (g h : A → ℤ) → ((x : A) → g x ≡ h x) → (xs : List A) → sum_by g xs ≡ sum_by h xs
sum_by-eq g h same [] = refl
sum_by-eq g h same (x ∷ xs) = rw (same x, sum_by-eq g h same xs) refl

net-lines :
    (e : JournalEntry) (ls : List JournalEntryLine)
    → sum_by net (map (row_of_line e) ls) ≡ base_debits ls -ℤ base_credits ls
unfolding net sum_of
net-lines e [] = grind int_laws
net-lines e (l ∷ ls) = grind (int_laws, net-lines e ls)

net_in_period-lines :
    (from : Option Date) (e : JournalEntry) (ls : List JournalEntryLine)
    → sum_by (net_in_period from) (map (row_of_line e) ls)
      ≡ (if before_period from e then pos 0 else base_debits ls -ℤ base_credits ls)
unfolding net_in_period
net_in_period-lines none e ls = net-lines e ls
net_in_period-lines (some d) e ls = elim (Bool-cases (ltb_date e.posting_date d)) [
  | inl t ↦ rw t (nothing t ls)
  | inr f ↦ rw f (all f ls)
]
  where
    nothing :
        ltb_date e.posting_date d ≡ true
        → (rest : List JournalEntryLine)
        → sum_by (net_in_period (some d)) (map (row_of_line e) rest) ≡ pos 0
    nothing t [] = refl
    nothing t (l ∷ rest) = rw (nothing t rest, net_in_period, t) (zero_+ℤ (pos 0))

    all :
        ltb_date e.posting_date d ≡ false
        → (rest : List JournalEntryLine)
        → sum_by (net_in_period (some d)) (map (row_of_line e) rest)
          ≡ base_debits rest -ℤ base_credits rest
    all f rest =
        sum_by-map (net_in_period (some d)) (row_of_line e) rest
        ∙ sum_by-eq (λ l. net_in_period (some d) (row_of_line e l)) (λ l. net (row_of_line e l))
            (λ l. rw f refl) rest
        ∙ sym (sum_by-map net (row_of_line e) rest)
        ∙ net-lines e rest

-- A sum over the rows is a sum over the entries.
net-join_lines : (es : List JournalEntry) → sum_by net (join_lines es) ≡ sum_by difference es
unfolding join_lines
net-join_lines [] = refl
net-join_lines (e ∷ es) =
    sum_by-append net (map (row_of_line e) e.lines) (join_lines es)
    ∙ rw (net-lines e e.lines, net-join_lines es) refl

net_in_period-join_lines :
    (from : Option Date) (es : List JournalEntry)
    → sum_by (net_in_period from) (join_lines es) ≡ sum_by (period_part from) es
unfolding join_lines
net_in_period-join_lines from [] = refl
net_in_period-join_lines from (e ∷ es) =
    sum_by-append (net_in_period from) (map (row_of_line e) e.lines) (join_lines es)
    ∙ rw (net_in_period-lines from e e.lines, net_in_period-join_lines from es) refl

join_lines-IsCharted :
    (accounts : List ChartOfAccount) (es : List JournalEntry)
    → All (HasAccounts accounts) es
    → All (IsCharted accounts) (join_lines es)
unfolding join_lines
join_lines-IsCharted accounts [] h = tt
join_lines-IsCharted accounts (e ∷ es) h =
    All-append _ (map (row_of_line e) e.lines) (join_lines es) (of_lines e.lines h.0)
      (join_lines-IsCharted accounts es h.1)
  where
    of_lines :
        (ls : List JournalEntryLine)
        → All (λ l. IsCharted accounts (row_of_line e l)) ls
        → All (IsCharted accounts) (map (row_of_line e) ls)
    of_lines [] k = tt
    of_lines (l ∷ ls) k = (k.0, of_lines ls k.1)

all_within :
    (collates : Text → Text → Bool) (accounts : List ChartOfAccount)
    → where_rows (within collates none none) accounts ≡ accounts
all_within collates [] = refl
all_within collates (a ∷ accounts) =
    ap (λ (xs : List ChartOfAccount). a ∷ xs) (all_within collates accounts)

module _ (collates : Text → Text → Bool) (b : Books) (from to : Option Date) where
  -- A difference of the totals over the whole chart is a sum over the rows.
  totals-rows :
      (d : Columns → ℤ) (f : LedgerRow → ℤ)
      → ((s : Columns) (items : List TrialBalanceItem)
          → d (add_items s items) ≡ d s +ℤ sum_by (λ i. d (TrialBalanceItem.columns i)) items)
      → d no_columns ≡ pos 0
      → ((key : ℕ) (rows : List LedgerRow)
          → d (item_of (balance_row from key rows)).columns ≡ sum_by f rows)
      → AreUnique b.accounts
      → All (IsCharted b.accounts) (posted_rows to b.entries)
      → d (trial_balance_totals (map item_of (trial_balance_balances collates from to none none b)))
        ≡ sum_by f (posted_rows to b.entries)
  unfolding trial_balance_totals trial_balance_balances
  totals-rows d f adds starts reads unique charted =
      let rows = posted_rows to b.entries in
      let order = λ (x y : ChartOfAccount). collates x.account_code y.account_code in
      let accounts = sort_by order b.accounts in
      let groups = group_rows from accounts rows in
      rw (all_within collates b.accounts) (
        adds no_columns (map item_of groups)
        ∙ rw starts (zero_+ℤ _)
        ∙ sum_by-map (λ i. d (TrialBalanceItem.columns i)) item_of groups
        ∙ sum_by-group_rows f from (λ g. d (item_of g).columns) reads accounts rows
        ∙ sum_by-sort_by (on_it f rows) order b.accounts
        ∙ over_accounts f b.accounts rows unique charted)

  -- The totals over the whole chart are sums over the entries.
  pub totals-posted :
      AreUnique b.accounts
      → All (HasAccounts b.accounts) b.entries
      → let t =
          trial_balance_totals
            (map item_of (trial_balance_balances collates from to none none b)) in
        (closing_difference t ≡ sum_by difference (posted_to to b.entries))
        × (period_difference t ≡ sum_by (period_part from) (posted_to to b.entries))
  unfolding posted_rows
  totals-posted unique has =
      let entries = posted_to to b.entries in
      let charted = join_lines-IsCharted b.accounts entries (All-where_rows _ _ b.entries has) in
      (
        totals-rows closing_difference net closing-add_items (grind int_laws)
              (closing-balance_row from) unique charted
            ∙ net-join_lines entries,
        totals-rows period_difference (net_in_period from) period-add_items (grind int_laws)
              (period-balance_row from) unique charted
            ∙ net_in_period-join_lines from entries,
      )
