-- ===== src/Reports.antt =====
-- backend/app/modules/reports: the date range of a report (ledger_reports.py), its filters
-- (schemas.py), the rows of the posted ledger that its queries read (repository.py), and pages.
pub mod TrialBalance
pub mod Pages
pub mod Tests
use lcs_system.Shared.{
  ℕ, zero, suc, ◌+◌, ◌-◌, ◌*◌, ltb, ◌==◌, if◌then◌else◌, Bool, true, false, ◌&&◌, ◌||◌, not, Option,
  none, some, List, [], ◌∷◌, ◌++◌, map, ℤ, pos, ◌+ℤ◌, Outcome, ok, err, ◌>>=◌, ◌>>◌, raise_if,
  or_raise, validation_failed, where_rows, take, drop, Text,
}
use lcs_system.Finance.Models.{Date, AccountingPeriod, JournalEntry, JournalEntryLine, EntryStatus}
use lcs_system.Finance.Periods.{leb_date}

pub record ReportFilters : Type 0 where
  pub from_date : Option Date
  pub to_date : Option Date
  pub fiscal_year : Option ℕ
  pub page : ℕ
  pub page_size : ℕ

-- `a < b` on dates.
abbrev pub ltb_date : Date → Date → Bool
ltb_date a b = not (leb_date b a)

abbrev pub max_date : Date → Date → Date
max_date a b = if ltb_date a b then b else a

abbrev pub min_date : Date → Date → Date
min_date a b = if ltb_date b a then b else a

-- MIN and MAX of a column, NULL over no rows.
abbrev pub earliest : List Date → Option Date
earliest [] = none
earliest (d ∷ ds) = elim (earliest ds) [ none ↦ some d | some e ↦ some (min_date d e) ]

abbrev pub latest : List Date → Option Date
latest [] = none
latest (d ∷ ds) = elim (latest ds) [ none ↦ some d | some e ↦ some (max_date d e) ]

-- `max(from_date, first) if from_date else first`, and the same of the ends.
abbrev pub later_of : Option Date → Date → Date
later_of none d = d
later_of (some e) d = max_date e d

abbrev pub earlier_of : Option Date → Date → Date
earlier_of none d = d
earlier_of (some e) d = min_date e d

abbrev pub is_inverted : Option Date → Option Date → Bool
is_inverted (some a) (some b) = ltb_date b a
is_inverted _ _ = false

abbrev of_year : ℕ → List AccountingPeriod → List AccountingPeriod
of_year year = where_rows (λ p. p.period_year == year)

-- The range of a fiscal year's periods, narrowed by the dates that are given.
unfoldable pub resolve_range :
    List AccountingPeriod → ReportFilters → Outcome (Option Date × Option Date)
resolve_range periods f = do
  raise_if (is_inverted f.from_date f.to_date) validation_failed
  elim f.fiscal_year [
    | none ↦ ok (f.from_date, f.to_date)
    | some year ↦ do
      first ← or_raise (earliest (map (λ p. p.start_date) (of_year year periods))) validation_failed
      last ← or_raise (latest (map (λ p. p.end_date) (of_year year periods))) validation_failed
      ok (some (later_of f.from_date first), some (earlier_of f.to_date last))
  ]

-- One row of the join of lines and entries.
pub record LedgerRow : Type 0 where
  pub entry : JournalEntry
  pub line : JournalEntryLine

abbrev pub is_posted : EntryStatus → Bool
is_posted EntryStatus.posted = true
is_posted _ = false

abbrev pub not_after : Option Date → JournalEntry → Bool
not_after none e = true
not_after (some d) e = leb_date e.posting_date d

abbrev pub not_before : Option Date → JournalEntry → Bool
not_before none e = true
not_before (some d) e = leb_date d e.posting_date

abbrev pub row_of_line : JournalEntry → JournalEntryLine → LedgerRow
row_of_line e l = record { entry = e; line = l }

unfoldable pub join_lines : List JournalEntry → List LedgerRow
join_lines [] = []
join_lines (e ∷ es) = map (row_of_line e) e.lines ++ join_lines es

-- The posted lines up to a date.
unfoldable pub posted_rows : Option Date → List JournalEntry → List LedgerRow
unfolding join_lines
posted_rows to entries = join_lines (where_rows (λ e. is_posted e.status && not_after to e) entries)

-- SUM(column), 0 over no rows.
abbrev pub sum_by {ℓ} : {A : Type ℓ} → (A → ℤ) → List A → ℤ
sum_by column [] = pos 0
sum_by column (x ∷ xs) = column x +ℤ sum_by column xs

-- `items[offset : offset + size]` with the offset of a page, counted from 1.
abbrev pub page_of {ℓ} : {A : Type ℓ} → ReportFilters → List A → List A
page_of f items = take f.page_size (drop ((f.page - 1) * f.page_size) items)
