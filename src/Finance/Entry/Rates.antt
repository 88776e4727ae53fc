-- ===== src/Finance/Entry/Rates.antt =====
-- The rate that a document is saved with: `_document_currency_inputs` of
-- backend/app/modules/finance/service.py, with `latest_approved` and `resolve_document_rate` of
-- backend/app/modules/master_data/currency_rates.py.
use lcs_system.Shared.{
  ℕ, leb, ◌^◌, if◌then◌else◌, Bool, true, false, ◌&&◌, ◌||◌, not, Option, none, some, List, ℤ, pos,
  pos_part, ltb_ℤ, Outcome, ok, ◌>>=◌, or_raise, validation_failed, where_rows, first_row, sort_by,
  is_empty, Text, strip, upper, text_eqb,
}
use lcs_system.Finance.Fx as Fx
use lcs_system.Finance.Fx.{Decimal, finite, Value, null, empty_text, decimal, half_up}
use lcs_system.Finance.Models.{Date, Currency}
use lcs_system.Finance.Periods.{leb_date}
use lcs_system.Finance.Ledger.{rate_of, precision_for}
use lcs_system.Finance.Journals.{assert_currency_code}

pub data RateStatus : Type 0 where
  pending approved inactive : RateStatus

pub record CurrencyRate : Type 0 where
  pub id : ℕ
  pub from_currency_code : Text
  pub to_currency_code : Text
  pub effective_date : Date
  pub rate : ℤ
  pub status : RateStatus

abbrev is_approved : RateStatus → Bool
is_approved approved = true
is_approved _ = false

abbrev pub is_effective : Text → Text → Date → CurrencyRate → Bool
is_effective from to on r =
    text_eqb r.from_currency_code (upper (strip from))
    && text_eqb r.to_currency_code (upper (strip to))
    && is_approved r.status
    && leb_date r.effective_date on

-- ORDER BY effective_date DESC, id DESC
abbrev newer : CurrencyRate → CurrencyRate → Bool
newer r q =
    not (leb_date r.effective_date q.effective_date)
    || (leb_date q.effective_date r.effective_date && leb q.id r.id)

unfoldable pub latest_approved : List CurrencyRate → Text → Text → Date → Option CurrencyRate
latest_approved rates from to on =
    first_row (λ r. true) (sort_by newer (where_rows (is_effective from to on) rates))

abbrev rate_value : ℤ → Value
rate_value r = decimal (finite (rate_of r))

-- `Decimal(1) / rate`, rounded to the eight places that `normalize_rate` rounds to: the digits that
-- Python keeps beyond them do not change which way.
abbrev reciprocal : ℤ → Decimal
reciprocal r = record { coefficient = pos (half_up (pos_part r) (10 ^ 16)); places = 8 }

abbrev is_usable : Option CurrencyRate → Option ℤ
is_usable none = none
is_usable (some r) = if ltb_ℤ (pos 0) r.rate then some r.rate else none

abbrev some_rate : Outcome Decimal → Outcome (Option Decimal)
some_rate m = m >>= λ rate. ok (some rate)

unfoldable pub resolve_document_rate :
    List CurrencyRate → Text → Text → Date → Outcome (Option Decimal)
unfolding latest_approved
resolve_document_rate rates document base on =
    let document_code = upper (strip document) in
    let base_code = upper (strip base) in
    if is_empty document_code || is_empty base_code
    then ok none
    else if Fx.same_currency (some document_code) (some base_code)
    then ok (some (Fx.whole 1))
    else elim (is_usable (latest_approved rates document_code base_code on)) [
      | some direct ↦ some_rate (Fx.normalize_rate (rate_value direct))
      | none ↦ elim (is_usable (latest_approved rates base_code document_code on)) [
        | some inverse ↦ some_rate (Fx.normalize_rate (decimal (finite (reciprocal inverse))))
        | none ↦ ok none
      ]
    ]

abbrev is_blank : Value → Bool
is_blank null = true
is_blank empty_text = true
is_blank _ = false

abbrev stored_or_null : Option ℤ → Value
stored_or_null none = null
stored_or_null (some r) = rate_value r

-- The rate of the payload, else the stored one, else the latest approved one.
abbrev chosen_rate : List CurrencyRate → Value → Option ℤ → Text → Text → Date → Outcome Value
chosen_rate rates given stored currency base on =
    if not (is_blank given) then ok given else elim stored [
      | some r ↦ ok (rate_value r)
      | none ↦ do
        found ← resolve_document_rate rates currency base on
        rate ← or_raise found validation_failed
        ok (decimal (finite rate))
    ]

pub record CurrencyInputs : Type 0 where
  pub currency : Text
  pub rate : Decimal
  pub base : Text
  pub precision : ℕ

unfoldable pub document_currency_inputs :
    List Currency
    → List CurrencyRate
    → Value
    → Text
    → Text
    → Date
    → Option ℤ
    → Outcome CurrencyInputs
unfolding resolve_document_rate
document_currency_inputs currencies rates given document_currency base_currency on stored = do
  currency ← assert_currency_code currencies document_currency
  base ← assert_currency_code currencies base_currency
  precision ← precision_for currencies currency
  if Fx.same_currency (some currency) (some base)
      then ok
          (record { currency = currency; rate = Fx.whole 1; base = base; precision = precision })
      else chosen_rate rates given stored currency base on >>= λ value.
          Fx.document_rate (some currency) (some base) value >>= λ rate.
          ok (record { currency = currency; rate = rate; base = base; precision = precision })
