-- ===== src/Reports/TrialBalance/Sums.antt =====
-- Sums over the groups, the accounts and the entries of a trial balance.
use lcs_system.Shared.{
  ℕ, ◌≡◌, refl, sym, ◌∙◌, ap, ◌==◌, if◌then◌else◌, Bool, true, false, not, Option, List, [], ◌∷◌, ℤ,
  pos, ◌+ℤ◌, ◌-ℤ◌, int_laws, where_rows, is_empty, sort_by, insert_by, first_row, is_found, All,
  All-imp, Bool-cases, inl, inr, eqb→eq, leb_ℤ,
}
use lcs_system.Finance.Models.{Date, ChartOfAccount}
use lcs_system.Reports.{LedgerRow, sum_by}
use lcs_system.Reports.TrialBalance.{
  AccountBalance, TrialBalanceItem, Columns, balance_row, group_rows, item_of, side, add_items,
  add_columns, closing_difference, period_difference, is_opening, debit_of, credit_of, on_account,
}

+ℤ_swap : (a b c : ℤ) → a +ℤ (b +ℤ c) ≡ b +ℤ (a +ℤ c)
+ℤ_swap a b c = grind int_laws

pub zero_+ℤ : (a : ℤ) → pos 0 +ℤ a ≡ a
zero_+ℤ a = grind int_laws

pub +ℤ_zero : (a : ℤ) → a +ℤ pos 0 ≡ a
+ℤ_zero a = grind int_laws

-- An order does not change a sum.
sum_by-insert_by :
    {A : Type 0} (h : A → ℤ) (before : A → A → Bool) (x : A) (xs : List A)
    → sum_by h (insert_by before x xs) ≡ h x +ℤ sum_by h xs
sum_by-insert_by h before x [] = refl
sum_by-insert_by h before x (y ∷ ys) = elim (Bool-cases (before x y)) [
  | inl t ↦ rw t refl
  | inr f ↦ rw (f, sum_by-insert_by h before x ys) (+ℤ_swap (h y) (h x) (sum_by h ys))
]

pub sum_by-sort_by :
    {A : Type 0} (h : A → ℤ) (before : A → A → Bool) (xs : List A)
    → sum_by h (sort_by before xs) ≡ sum_by h xs
sum_by-sort_by h before [] = refl
sum_by-sort_by h before (x ∷ xs) =
    sum_by-insert_by h before x (sort_by before xs)
    ∙ ap (λ (s : ℤ). h x +ℤ s) (sum_by-sort_by h before xs)

-- What each account has of a row's amount, and of the rows'.
pub share : (LedgerRow → ℤ) → LedgerRow → ChartOfAccount → ℤ
share f r a = if on_account a.id r then f r else pos 0

-- The amounts of the rows on an account.
pub on_it : (LedgerRow → ℤ) → List LedgerRow → ChartOfAccount → ℤ
on_it f rows a = sum_by f (where_rows (on_account a.id) rows)

on_it-cons :
    (f : LedgerRow → ℤ) (r : LedgerRow) (rows : List LedgerRow) (a : ChartOfAccount)
    → on_it f (r ∷ rows) a ≡ share f r a +ℤ on_it f rows a
unfolding on_it share
on_it-cons f r rows a = elim (Bool-cases (on_account a.id r)) [
  | inl t ↦ rw t refl
  | inr n ↦ rw n (sym (zero_+ℤ _))
]

module _ (f : LedgerRow → ℤ) where
  over_accounts-nil : (accounts : List ChartOfAccount) → sum_by (on_it f []) accounts ≡ pos 0
  unfolding on_it
  over_accounts-nil [] = refl
  over_accounts-nil (a ∷ accounts) = rw (over_accounts-nil accounts) (zero_+ℤ (pos 0))

  over_accounts-cons :
      (r : LedgerRow) (rows : List LedgerRow) (accounts : List ChartOfAccount)
      → sum_by (on_it f (r ∷ rows)) accounts
        ≡ sum_by (share f r) accounts +ℤ sum_by (on_it f rows) accounts
  over_accounts-cons r rows [] = sym (zero_+ℤ (pos 0))
  over_accounts-cons r rows (a ∷ accounts) =
      grind (int_laws, on_it-cons f r rows a, over_accounts-cons r rows accounts)

  share-absent :
      (r : LedgerRow) (accounts : List ChartOfAccount)
      → All (λ a. on_account (ChartOfAccount.id a) r ≡ false) accounts
      → sum_by (share f r) accounts ≡ pos 0
  unfolding share
  share-absent r [] h = refl
  share-absent r (a ∷ accounts) h = rw (h.0, share-absent r accounts h.1) (zero_+ℤ (pos 0))

-- No two accounts have one key.
abbrev pub AreUnique : List ChartOfAccount → Type 0
AreUnique [] = Unit
AreUnique (a ∷ accounts) =
    All (λ x. (a.id == ChartOfAccount.id x) ≡ false) accounts × AreUnique accounts

-- The account of a row is in the chart.
abbrev pub IsCharted : List ChartOfAccount → LedgerRow → Type 0
IsCharted accounts r =
    is_found (first_row (λ a. on_account (ChartOfAccount.id a) r) accounts) ≡ true

module _ (f : LedgerRow → ℤ) where
  share-present :
      (r : LedgerRow) (accounts : List ChartOfAccount)
      → AreUnique accounts
      → IsCharted accounts r
      → sum_by (share f r) accounts ≡ f r
  unfolding share
  share-present r [] u h = cc
  share-present r (a ∷ accounts) u h = elim (Bool-cases (on_account a.id r)) [
    | inl t ↦
        let here = eqb→eq r.line.account_id a.id t in
        let others : All (λ x. on_account (ChartOfAccount.id x) r ≡ false) accounts =
          All-imp _ _ accounts (λ x apart. rw here apart) u.0 in
        rw (t, share-absent f r accounts others) (+ℤ_zero (f r))
    | inr n ↦ rw n (zero_+ℤ _ ∙ share-present r accounts u.1 (rw n at h))
  ]

  -- Rows whose accounts are in the chart are counted once each.
  pub over_accounts :
      (accounts : List ChartOfAccount) (rows : List LedgerRow)
      → AreUnique accounts
      → All (IsCharted accounts) rows
      → sum_by (on_it f rows) accounts ≡ sum_by f rows
  over_accounts accounts [] u h = over_accounts-nil f accounts
  over_accounts accounts (r ∷ rows) u h =
      over_accounts-cons f r rows accounts
      ∙ rw (share-present r accounts u h.0, over_accounts accounts rows u h.1) refl

  -- The groups of a query add up to what the accounts have, whatever is read off a group.
  pub sum_by-group_rows :
      (from : Option Date) (g : AccountBalance → ℤ)
      → ((key : ℕ) (rows : List LedgerRow) → g (balance_row from key rows) ≡ sum_by f rows)
      → (accounts : List ChartOfAccount) (rows : List LedgerRow)
      → sum_by g (group_rows from accounts rows) ≡ sum_by (on_it f rows) accounts
  unfolding group_rows on_it
  sum_by-group_rows from g reads [] rows = refl
  sum_by-group_rows from g reads (a ∷ accounts) rows =
      by_size (where_rows (on_account a.id) rows) (group_rows from accounts rows)
        (sum_by-group_rows from g reads accounts rows)
    where
      by_size :
          (mine : List LedgerRow) (rest : List AccountBalance) {s : ℤ}
          → sum_by g rest ≡ s
          → sum_by g (if is_empty mine then rest else balance_row from a.id mine ∷ rest)
            ≡ sum_by f mine +ℤ s
      by_size [] rest e = e ∙ sym (zero_+ℤ _)
      by_size (r ∷ mine) rest e = rw (e, reads a.id (r ∷ mine)) refl

-- The amounts of a trial balance: debits less credits, of all rows, and of the rows of the period.
unfoldable pub net : LedgerRow → ℤ
net r = debit_of r -ℤ credit_of r

unfoldable pub net_in_period : Option Date → LedgerRow → ℤ
net_in_period from r = if is_opening from r then pos 0 else net r

split_net :
    (opening : LedgerRow → Bool) (rows : List LedgerRow)
    → let early = where_rows opening rows in
      let late = where_rows (λ r. not (opening r)) rows in
      (sum_by debit_of early
          -ℤ sum_by credit_of early
          +ℤ sum_by debit_of late
          -ℤ sum_by credit_of late
        ≡ sum_by net rows)
      × (sum_by debit_of late -ℤ sum_by credit_of late
          ≡ sum_by (λ r. if opening r then pos 0 else net r) rows)
unfolding net
split_net opening [] = (grind int_laws, grind int_laws)
split_net opening (r ∷ rows) = elim (Bool-cases (opening r)) [
  | inl t ↦
      rw t (grind (int_laws, split_net opening rows), grind (int_laws, split_net opening rows))
  | inr n ↦
      rw n (grind (int_laws, split_net opening rows), grind (int_laws, split_net opening rows))
]

side-net : (n : ℤ) → (side n).0 -ℤ (side n).1 ≡ n
side-net n = elim (Bool-cases (leb_ℤ (pos 0) n)) [
  | inl t ↦ rw t (grind int_laws)
  | inr f ↦ rw f (grind int_laws)
]

-- The closing and the period columns of a group.
pub closing-balance_row :
    (from : Option Date) (key : ℕ) (rows : List LedgerRow)
    → closing_difference (item_of (balance_row from key rows)).columns ≡ sum_by net rows
unfolding item_of balance_row
closing-balance_row from key rows = side-net _ ∙ (split_net (is_opening from) rows).0

pub period-balance_row :
    (from : Option Date) (key : ℕ) (rows : List LedgerRow)
    → period_difference (item_of (balance_row from key rows)).columns
      ≡ sum_by (net_in_period from) rows
unfolding item_of balance_row net_in_period
period-balance_row from key rows = (split_net (is_opening from) rows).1

-- A difference of the totals is the sum of the items'.
pub closing-add_items :
    (s : Columns) (items : List TrialBalanceItem)
    → closing_difference (add_items s items)
      ≡ closing_difference s +ℤ sum_by (λ i. closing_difference (TrialBalanceItem.columns i)) items
unfolding add_items
closing-add_items s [] = sym (+ℤ_zero _)
closing-add_items s (i ∷ items) =
    grind (int_laws, closing-add_items (add_columns s i.columns) items)

pub period-add_items :
    (s : Columns) (items : List TrialBalanceItem)
    → period_difference (add_items s items)
      ≡ period_difference s +ℤ sum_by (λ i. period_difference (TrialBalanceItem.columns i)) items
unfolding add_items
period-add_items s [] = sym (+ℤ_zero _)
period-add_items s (i ∷ items) = grind (int_laws, period-add_items (add_columns s i.columns) items)
