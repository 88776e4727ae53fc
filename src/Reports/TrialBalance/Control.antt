-- ===== src/Reports/TrialBalance/Control.antt =====
-- The control of a trial balance against the ledger.
use lcs_system.Shared.{
  ℕ, ◌≡◌, refl, sym, ◌∙◌, ap, ◌+◌, Bool, true, ◌&&◌, Option, none, List, [], ◌∷◌, map, pos, ◌+ℤ◌,
  int_laws, +ℤ_parts, -ℤ_parts, arith, length, Text, ok, validation_failed, raise_if-eq-ok,
  >>=-eq-ok, ok-injective, All, All-imp, Bool-cases, inl, inr,
}
use lcs_system.Finance.Models.{Date, JournalEntry, Books, EntryStatus}
use lcs_system.Finance.Ledger.{base_debits, base_credits}
use lcs_system.Finance.Ledger.Balanced.{IsSoundBooks, IsWithin}
use lcs_system.Reports.{sum_by, is_posted, not_after, resolve_range}
use lcs_system.Reports.TrialBalance.{
  TrialBalanceFilters, TrialBalance, trial_balance, trial_balance_balances, trial_balance_totals,
  item_of, closing_difference, period_difference, bad_accounts, is_balanced,
}
use lcs_system.Reports.TrialBalance.Totals.{
  difference, before_period, period_part, posted_to, HasAccounts, totals-posted,
}
use lcs_system.Reports.TrialBalance.Sums.{AreUnique, zero_+ℤ}

-- The range, and the totals over the rows of the query, of a report that was made.
record Made (collates : Text → Text → Bool) (b : Books) (f : TrialBalanceFilters) (t : TrialBalance)
    : Type 0 where
  columns :
      t.totals
      ≡ trial_balance_totals (
          map item_of
            (trial_balance_balances collates t.from_date t.to_date f.account_from f.account_to b))
  verdict : t.balanced ≡ is_balanced t.totals
  gap : t.imbalance ≡ closing_difference t.totals

trial_balance-Made :
    (collates : Text → Text → Bool) (b : Books) (f : TrialBalanceFilters) {t : TrialBalance}
    → trial_balance collates b f ≡ ok t
    → Made collates b f t
unfolding trial_balance
trial_balance-Made collates b f e =
    let (range, _, e₁) = >>=-eq-ok (resolve_range b.periods f.report) _ e in
    let (_, e₂) =
      raise_if-eq-ok (bad_accounts f.account_from f.account_to) validation_failed _ e₁ in
    rw (ok-injective e₂) (record { columns = refl; verdict = refl; gap = refl })

-- The control of a trial balance over the whole chart of accounts, where the chart has the account
-- of every line: its imbalance is what the posted entries up to the end of the range, taken
-- together, are out of balance by in the base currency, and its period movement is out of balance
-- by what the entries of the period are.
pub trial_balance-ledger :
    (collates : Text → Text → Bool) (b : Books) (f : TrialBalanceFilters) {t : TrialBalance}
    → AreUnique b.accounts
    → All (HasAccounts b.accounts) b.entries
    → f.account_from ≡ none
    → f.account_to ≡ none
    → trial_balance collates b f ≡ ok t
    → (t.imbalance ≡ sum_by difference (posted_to t.to_date b.entries))
      × (period_difference t.totals
          ≡ sum_by (period_part t.from_date) (posted_to t.to_date b.entries))
trial_balance-ledger collates b f {t} unique has no_from no_to e =
    let m = trial_balance-Made collates b f e in
    let columns = rw (no_from, no_to) at m.columns in
    let (closing, period) = totals-posted collates b t.from_date t.to_date unique has in
    (m.gap ∙ ap closing_difference columns ∙ closing, ap period_difference columns ∙ period)

-- What holds of every posted entry holds of those that a report reads.
posted_to-All :
    (P : JournalEntry → Type 0) (to : Option Date) (es : List JournalEntry)
    → All (λ e. JournalEntry.status e ≡ EntryStatus.posted → P e) es
    → All P (posted_to to es)
posted_to-All P to [] h = tt
posted_to-All P to (e ∷ es) h = elim (Bool-cases (is_posted e.status && not_after to e)) [
  | inl t ↦ rw t (h.0 (status-posted e.status t), posted_to-All P to es h.1)
  | inr f ↦ rw f (posted_to-All P to es h.1)
]
  where
    status-posted :
        (s : EntryStatus) → (is_posted s && not_after to e) ≡ true → s ≡ EntryStatus.posted
    status-posted EntryStatus.posted k = refl
    status-posted EntryStatus.draft k = cc
    status-posted EntryStatus.unknown k = cc

no_difference :
    (from : Option Date) (es : List JournalEntry)
    → All (λ e. base_debits (JournalEntry.lines e) ≡ base_credits e.lines) es
    → (sum_by difference es ≡ pos 0) × (sum_by (period_part from) es ≡ pos 0)
no_difference from [] h = (refl, refl)
no_difference from (e ∷ es) h =
    let (rest, rest') = no_difference from es h.1 in
    let none_here : difference e ≡ pos 0 = grind (int_laws, h.0) in
    (
      rw (none_here, rest) (zero_+ℤ _),
      elim (Bool-cases (before_period from e)) [
        | inl t ↦ rw (t, rest') (zero_+ℤ _)
        | inr f ↦ rw (f, none_here, rest') (zero_+ℤ _)
      ],
    )

-- A trial balance over the whole chart balances if every posted entry balances in the base
-- currency, whatever its range.
pub trial_balance-balanced :
    (collates : Text → Text → Bool) (b : Books) (f : TrialBalanceFilters) {t : TrialBalance}
    → AreUnique b.accounts
    → All (HasAccounts b.accounts) b.entries
    → f.account_from ≡ none
    → f.account_to ≡ none
    → All
        (λ e.
          JournalEntry.status e ≡ EntryStatus.posted → base_debits e.lines ≡ base_credits e.lines)
        b.entries
    → trial_balance collates b f ≡ ok t
    → t.balanced ≡ true
trial_balance-balanced collates b f {t} unique has no_from no_to exact e =
    let m = trial_balance-Made collates b f e in
    let (closing, period) = trial_balance-ledger collates b f unique has no_from no_to e in
    let (zero_closing, zero_period) =
      no_difference t.from_date (posted_to t.to_date b.entries)
        (posted_to-All _ t.to_date b.entries exact) in
    m.verdict ∙ rw (sym m.gap ∙ closing ∙ zero_closing, period ∙ zero_period) refl

-- The number of lines of some entries.
abbrev pub line_count : List JournalEntry → ℕ
line_count [] = 0
line_count (e ∷ es) = length e.lines + line_count es

sum-IsWithin :
    (es : List JournalEntry)
    → All
        (λ e. IsWithin (length (JournalEntry.lines e)) (base_debits e.lines) (base_credits e.lines))
        es
    → IsWithin (line_count es) (sum_by difference es) (pos 0)
sum-IsWithin [] h = (grind int_laws, grind int_laws)
sum-IsWithin (e ∷ es) h =
    let bd = base_debits e.lines in
    let bc = base_credits e.lines in
    let d = difference e in
    let s = sum_by difference es in
    let n = length e.lines in
    let m = line_count es in
    let (low, high) = h.0 in
    let (low', high') = sum-IsWithin es h.1 in
    let e₁ = +ℤ_parts bd bd in
    let e₂ = +ℤ_parts bc bc in
    let e₃ = +ℤ_parts (bc +ℤ bc) (pos n) in
    let e₄ = +ℤ_parts (bd +ℤ bd) (pos n) in
    let e₅ = -ℤ_parts bd bc in
    let e₆ = +ℤ_parts d s in
    let e₇ = +ℤ_parts (d +ℤ s) (d +ℤ s) in
    let e₈ = +ℤ_parts s s in
    let e₉ = +ℤ_parts (pos 0) (pos 0) in
    let f₁ = +ℤ_parts (pos 0 +ℤ pos 0) (pos m) in
    let f₂ = +ℤ_parts (s +ℤ s) (pos m) in
    let f₃ = +ℤ_parts (pos 0 +ℤ pos 0) (pos (n + m)) in
    let f₄ = +ℤ_parts (d +ℤ s +ℤ (d +ℤ s)) (pos (n + m)) in (omega arith, omega arith)

-- In sound books, the imbalance of a trial balance over the whole chart is at most half of the last
-- place for each line of the posted entries that it reads.
pub trial_balance-IsWithin :
    (collates : Text → Text → Bool) (b : Books) (f : TrialBalanceFilters) {t : TrialBalance}
    → IsSoundBooks b
    → AreUnique b.accounts
    → All (HasAccounts b.accounts) b.entries
    → f.account_from ≡ none
    → f.account_to ≡ none
    → trial_balance collates b f ≡ ok t
    → IsWithin (line_count (posted_to t.to_date b.entries)) t.imbalance (pos 0)
trial_balance-IsWithin collates b f {t} sound unique has no_from no_to e =
    let (closing, _) = trial_balance-ledger collates b f unique has no_from no_to e in
    rw closing (
      sum-IsWithin (posted_to t.to_date b.entries) (
        posted_to-All _ t.to_date b.entries
          (All-imp _ _ b.entries (λ x h p. (h p).base) sound.balanced)))
