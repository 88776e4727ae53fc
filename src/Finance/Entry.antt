-- ===== src/Finance/Entry.antt =====
-- The lines of a document as `save_document` of backend/app/modules/finance/service.py computes
-- them, with `parse_decimal` and `resolve_line_tax` of backend/app/core/validation.py.
-- A quantity has three decimal places and a price four; products and taxes are kept exactly, as
-- counts of 10^-13, until they are written to a column.
pub mod Payload
pub mod Rates
pub mod Save
pub mod Saved
pub mod Totals
use lcs_system.Shared.{
  ℕ, zero, suc, ◌+◌, ◌-◌, ◌*◌, ◌/◌, ◌%◌, ◌^◌, leb, ◌==◌, if◌then◌else◌, Bool, true, false, ◌&&◌,
  ◌||◌, not, Option, none, some, List, [], ◌∷◌, ℤ, pos, negsuc, neg_ℤ, ◌+ℤ◌, ◌-ℤ◌, ◌*ℤ◌, ltb_ℤ,
  Outcome, ok, err, ◌>>=◌, ◌>>◌, raise_if, or_raise, validation_failed, Text,
}
use lcs_system.Finance.Fx.{
  Decimal, Number, finite, nan, infinity, Value, null, empty_text, decimal, boolean, spelled,
}
use lcs_system.Finance.Models.{ChartOfAccount, FinancialDocumentLine}
use lcs_system.Finance.PostingRules.{validate_postable}
use lcs_system.Finance.PostingRules.Administration.{resolve_account_ref}
use lcs_system.Finance.Ledger.{money_column}

-- A coefficient over more places than are allowed, if the places beyond are zeros.
abbrev exact_div : ℤ → ℕ → Outcome ℤ
exact_div (pos n) unit = if n % unit == 0 then ok (pos (n / unit)) else err validation_failed
exact_div (negsuc n) unit =
    if (n + 1) % unit == 0 then ok (neg_ℤ (pos ((n + 1) / unit))) else err validation_failed

-- A finite number of at most some decimal places, as a count of the last one.
abbrev pub to_places : ℕ → Number → Outcome ℤ
to_places places (finite d) =
    if leb d.places places
    then ok (d.coefficient *ℤ pos (10 ^ (places - d.places)))
    else exact_div d.coefficient (10 ^ (d.places - places))
to_places places _ = err validation_failed

unfoldable pub parse_decimal : ℕ → ℤ → Value → Outcome ℤ
parse_decimal places default null = ok default
parse_decimal places default empty_text = ok default
parse_decimal places default (decimal n) = to_places places n
parse_decimal places default (boolean _) = err validation_failed
parse_decimal places default (spelled none) = err validation_failed
parse_decimal places default (spelled (some n)) = to_places places n

-- A line of the payload. `fee_type` is what `resolve_reference_id` makes of its fee type, and
-- `account` its account code or, without one, its account id.
pub record LineInput : Type 0 where
  pub quantity : Value
  pub unit_price : Value
  pub unit_amount : Value
  pub discount : Value
  pub tax_rate : Value
  pub tax_amount : Value
  pub tax : Value
  pub fee_type : Outcome (Option ℕ)
  pub account : Option Text

abbrev is_blank : Value → Bool
is_blank null = true
is_blank empty_text = true
is_blank _ = false

abbrev first_given : Value → Value → Value
first_given v w = if is_blank v then w else v

-- The tax of a line, a count of 10^-13, and whether its rate is between 0 and 100 percent.
pub record LineTax : Type 0 where
  pub amount : ℤ
  pub rate_in_range : Bool

-- A rate of four places, of a taxable amount of seven, in percent.
abbrev tax_by_rate : ℤ → Value → Outcome LineTax
tax_by_rate taxable value = do
  rate ← parse_decimal 4 (pos 0) value
  ok (record {
    amount = taxable *ℤ rate;
    rate_in_range = not (ltb_ℤ rate (pos 0)) && not (ltb_ℤ (pos 1000000) rate);
  })

-- An amount of four places; its rate is `amount / taxable * 100`, or 0 if nothing is taxable.
abbrev tax_by_amount : ℤ → Value → Outcome LineTax
tax_by_amount taxable value = do
  amount ← parse_decimal 4 (pos 0) value
  ok (record {
    amount = amount *ℤ pos 1000000000;
    rate_in_range =
        not (ltb_ℤ (pos 0) taxable)
        || (not (ltb_ℤ amount (pos 0)) && not (ltb_ℤ taxable (amount *ℤ pos 1000)));
  })

unfoldable pub resolve_line_tax : LineInput → ℤ → Outcome LineTax
unfolding parse_decimal
resolve_line_tax l taxable =
    if not (is_blank l.tax_rate)
    then tax_by_rate taxable l.tax_rate
    else if not (is_blank l.tax_amount)
    then tax_by_amount taxable l.tax_amount
    else if not (is_blank l.tax)
    then tax_by_rate taxable l.tax
    else ok (record { amount = pos 0; rate_in_range = true })

-- `_line_account_id`
unfoldable pub line_account_id : List ChartOfAccount → Option Text → Outcome (Option ℕ)
line_account_id accounts none = ok none
line_account_id accounts (some []) = ok none
line_account_id accounts (some reference) = do
  found ← or_raise (resolve_account_ref accounts reference) validation_failed
  account ← validate_postable (some found)
  ok (some account.id)

-- What a line adds to the totals, in counts of 10^-13, and the row that is written.
pub record EntryLine : Type 0 where
  pub base : ℤ
  pub discount : ℤ
  pub tax : ℤ
  pub row : FinancialDocumentLine

abbrev pub exact_amount : ℤ → Decimal
exact_amount c = record { coefficient = c; places = 13 }

abbrev pub line_total : EntryLine → ℤ
line_total l = l.base -ℤ l.discount +ℤ l.tax

unfoldable pub entry_line : List ChartOfAccount → LineInput → Outcome EntryLine
unfolding resolve_line_tax line_account_id
entry_line accounts l = do
  quantity ← parse_decimal 3 (pos 1000) l.quantity
  price ← parse_decimal 4 (pos 0) (first_given l.unit_price l.unit_amount)
  discount ← parse_decimal 4 (pos 0) l.discount
  let base = quantity *ℤ price
  let off = discount *ℤ pos 1000
  raise_if (not (ltb_ℤ (pos 0) quantity)) validation_failed
  raise_if (ltb_ℤ price (pos 0)) validation_failed
  raise_if (ltb_ℤ discount (pos 0) || ltb_ℤ base off) validation_failed
  tax ← resolve_line_tax l (base -ℤ off)
  raise_if (ltb_ℤ tax.amount (pos 0)) validation_failed
  raise_if (not tax.rate_in_range) validation_failed
  fee ← l.fee_type
  account ← line_account_id accounts l.account
  let b = base *ℤ pos 1000000
  let d = off *ℤ pos 1000000
  ok (record {
    base = b;
    discount = d;
    tax = tax.amount;
    row = record {
      fee_type_id = fee;
      tax_amount = money_column (exact_amount tax.amount);
      line_amount = money_column (exact_amount (b -ℤ d +ℤ tax.amount));
      account_id = account;
    };
  })

unfoldable pub entry_lines : List ChartOfAccount → List LineInput → Outcome (List EntryLine)
unfolding entry_line
entry_lines accounts [] = ok []
entry_lines accounts (l ∷ ls) =
    entry_line accounts l >>= λ row. entry_lines accounts ls >>= λ rows. ok (row ∷ rows)
