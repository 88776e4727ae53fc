-- ===== src/Finance/Ledger.antt =====
-- What the documents and the journals of backend/app/modules/finance/service.py share: rows found
-- and changed by key, sums of journal lines, and the configured precision of a currency
-- (backend/app/modules/master_data/currency_rates.py).
pub mod Rows
pub mod Balanced
use lcs_system.Shared.{
  ℕ, zero, suc, ◌+◌, ◌-◌, ◌^◌, ◌==◌, leb, if◌then◌else◌, Bool, true, false, ◌&&◌, not, Option, none,
  some, List, [], ◌∷◌, ℤ, pos, ◌+ℤ◌, ◌-ℤ◌, ◌*ℤ◌, eqb_ℤ, Outcome, ok, err, ◌>>=◌, first_row,
  is_empty, Text, upper, strip, text_eqb,
}
use lcs_system.Finance.Fx as Fx
use lcs_system.Finance.Fx.{Decimal, decimal, finite, whole}
use lcs_system.Finance.Models.{FinancialDocument, JournalEntry, JournalEntryLine, Currency, Books}

abbrev pub find_document : ℕ → List FinancialDocument → Option FinancialDocument
find_document key = first_row (λ d. d.id == key)

abbrev pub find_entry : ℕ → List JournalEntry → Option JournalEntry
find_entry key = first_row (λ e. e.id == key)

-- Attributes of the row that a search by key finds are assigned.
unfoldable pub modify_document :
    ℕ → (FinancialDocument → FinancialDocument) → List FinancialDocument → List FinancialDocument
modify_document key f [] = []
modify_document key f (d ∷ ds) = if d.id == key then f d ∷ ds else d ∷ modify_document key f ds

unfoldable pub modify_entry :
    ℕ → (JournalEntry → JournalEntry) → List JournalEntry → List JournalEntry
modify_entry key f [] = []
modify_entry key f (e ∷ es) = if e.id == key then f e ∷ es else e ∷ modify_entry key f es

-- `sum(line.<column> for line in lines)`
unfoldable pub sum_of : (JournalEntryLine → ℤ) → List JournalEntryLine → ℤ
sum_of column [] = pos 0
sum_of column (l ∷ ls) = column l +ℤ sum_of column ls

abbrev pub debits : List JournalEntryLine → ℤ
debits = sum_of (λ l. l.debit_amount)

abbrev pub credits : List JournalEntryLine → ℤ
credits = sum_of (λ l. l.credit_amount)

abbrev pub base_debits : List JournalEntryLine → ℤ
base_debits = sum_of (λ l. l.base_debit_amount)

abbrev pub base_credits : List JournalEntryLine → ℤ
base_credits = sum_of (λ l. l.base_credit_amount)

abbrev pub money : ℤ → Decimal
money c = record { coefficient = c; places = 4 }

abbrev pub rate_of : ℤ → Decimal
rate_of c = record { coefficient = c; places = 8 }

-- A value as a Numeric(19, 4) column keeps it: the database rounds to the nearest, halves away from
-- zero.
abbrev pub money_column : Decimal → ℤ
money_column d = (Fx.quantize 4 d).coefficient

-- `amount * exchange_rate`, written to a column.
unfoldable pub base_amount : ℤ → ℤ → ℤ
base_amount amount rate = money_column (Fx.times (money amount) (rate_of rate))

-- `rate or Decimal("1")`
abbrev pub rate_or_one : ℤ → ℤ
rate_or_one r = if eqb_ℤ r (pos 0) then pos 100000000 else r

abbrev find_currency : Text → List Currency → Option Currency
find_currency code = first_row (λ c. text_eqb c.code code)

unfoldable pub precision_for : List Currency → Text → Outcome ℕ
precision_for currencies code =
    let value = upper (strip code) in
    if is_empty value
    then ok Fx.default_currency_precision
    else elim (find_currency value currencies) [
      | none ↦ ok Fx.default_currency_precision
      | some row ↦ Fx.currency_precision (decimal (finite (whole row.decimal_places)))
    ]

-- `fx.convert_to_base` of a money column at a rate column.
abbrev pub convert : ℤ → ℤ → ℕ → Outcome Decimal
convert amount rate precision =
    Fx.convert_to_base (money amount) (rate_of rate) (decimal (finite (whole precision)))

-- `a - b` on decimals, at the finer of their scales.
abbrev pub minus : Decimal → Decimal → Decimal
minus a b =
    let p = if leb a.places b.places then b.places else a.places in
    record {
      coefficient =
          a.coefficient *ℤ pos (10 ^ (p - a.places)) -ℤ b.coefficient *ℤ pos (10 ^ (p - b.places));
      places = p;
    }
