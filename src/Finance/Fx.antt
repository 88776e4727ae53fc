-- ===== src/Finance/Fx.antt =====
-- backend/app/core/fx.py: rates, currency precision and the rounding of money.
-- A finite `Decimal` is a coefficient over a power of ten; arithmetic is exact, so the 28 digits of
-- Python's default context are not a bound here.
pub mod Rounding
pub mod Rates
use lcs_system.Shared.{
  ℕ, ◌+◌, ◌-◌, ◌*◌, ◌/◌, ◌^◌, ℤ, pos, negsuc, neg_ℤ, ◌*ℤ◌, ltb_ℤ, leb_ℤ, leb, Bool, true, false,
  ◌&&◌, Option, none, some, if◌then◌else◌, Outcome, ok, err, ◌>>=◌, ◌>>◌, raise_if,
  validation_failed, internal_error, Text, strip, upper, text_eqb, is_empty, not, [],
}

pub record Decimal : Type 0 where
  pub coefficient : ℤ
  pub places : ℕ

-- What `Decimal(...)` can be.
pub data Number : Type 0 where
  finite : Decimal → Number
  nan infinity : Number

-- A JSON or database value. `spelled` is any other value, with what `Decimal(str(value).strip())`
-- makes of it: `none` where that raises.
pub data Value : Type 0 where
  null empty_text : Value
  decimal : Number → Value
  boolean : Bool → Value
  spelled : Option Number → Value

abbrev pub whole : ℕ → Decimal
whole n = record { coefficient = pos n; places = 0 }

abbrev pub rate_places : ℕ
rate_places = 8

abbrev pub default_currency_precision : ℕ
default_currency_precision = 2

abbrev pub max_currency_precision : ℕ
max_currency_precision = 6

abbrev pub max_rate : ℕ
max_rate = 1000000000

-- `Decimal.quantize(..., rounding=ROUND_HALF_UP)`: to the nearest multiple of `unit`, ties away
-- from zero.
abbrev pub half_up : ℕ → ℕ → ℕ
half_up unit n = (2 * n + unit) / (2 * unit)

unfoldable pub round_half_up : ℕ → ℤ → ℤ
round_half_up unit (pos n) = pos (half_up unit n)
round_half_up unit (negsuc n) = neg_ℤ (pos (half_up unit (n + 1)))

unfoldable pub quantize : ℕ → Decimal → Decimal
quantize p d =
    if leb d.places p
    then record { coefficient = d.coefficient *ℤ pos (10 ^ (p - d.places)); places = p }
    else record { coefficient = round_half_up (10 ^ (d.places - p)) d.coefficient; places = p }

unfoldable pub to_decimal : Value → Option Number → Outcome Number
to_decimal null none = ok (finite (whole 0))
to_decimal null (some d) = ok d
to_decimal empty_text none = ok (finite (whole 0))
to_decimal empty_text (some d) = ok d
to_decimal (decimal n) _ = ok n
to_decimal (boolean _) _ = err validation_failed
to_decimal (spelled (some n)) _ = ok n
to_decimal (spelled none) (some d) = ok d
to_decimal (spelled none) none = err validation_failed

-- `rate <= 0` and `rate > MAX_RATE`.
abbrev pub is_positive : Decimal → Bool
is_positive d = ltb_ℤ (pos 0) d.coefficient

abbrev pub is_plausible : Decimal → Bool
is_plausible d = leb_ℤ d.coefficient (pos (max_rate * 10 ^ d.places))

abbrev pub usable : Number → Bool
usable (finite d) = is_positive d && is_plausible d
usable _ = false

unfoldable pub is_valid_rate : Value → Bool
unfolding to_decimal
is_valid_rate value = elim (to_decimal value none) [ ok n ↦ usable n | err _ ↦ false ]

unfoldable pub normalize_number : Number → Outcome Decimal
normalize_number (finite rate) = do
  raise_if (not (is_positive rate)) validation_failed
  raise_if (not (is_plausible rate)) validation_failed
  let quantized = quantize rate_places rate
  raise_if (not (is_positive quantized)) validation_failed
  ok quantized
normalize_number _ = err validation_failed

unfoldable pub normalize_rate : Value → Outcome Decimal
unfolding to_decimal
normalize_rate value = elim (to_decimal value none) [
  | err _ ↦ err validation_failed
  | ok n ↦ normalize_number n
]

-- `str(x or "").strip().upper()`
abbrev pub currency_key : Option Text → Text
currency_key none = []
currency_key (some t) = upper (strip t)

unfoldable pub same_currency : Option Text → Option Text → Bool
same_currency document base =
    let left = currency_key document in not (is_empty left) && text_eqb left (currency_key base)

abbrev given_rate : Value → Outcome Decimal
given_rate null = err validation_failed
given_rate empty_text = err validation_failed
given_rate rate = normalize_rate rate

unfoldable pub document_rate : Option Text → Option Text → Value → Outcome Decimal
unfolding same_currency
document_rate document base rate =
    if same_currency document base then ok (whole 1) else given_rate rate

-- `max(0, min(int(n), MAX_CURRENCY_PRECISION))`; `int` of NaN raises the ValueError that is caught,
-- `int` of an infinity an OverflowError that is not.
abbrev pub clamp_precision : ℕ → ℕ
clamp_precision n = if leb n max_currency_precision then n else max_currency_precision

abbrev pub whole_part : ℤ → ℕ → ℕ
whole_part (pos n) places = n / 10 ^ places
whole_part (negsuc _) _ = 0

abbrev precision_of : Number → Outcome ℕ
precision_of (finite d) = ok (clamp_precision (whole_part d.coefficient d.places))
precision_of nan = ok default_currency_precision
precision_of infinity = err internal_error

abbrev converted_precision : Outcome Number → Outcome ℕ
converted_precision (ok n) = precision_of n
converted_precision (err _) = ok default_currency_precision

unfoldable pub currency_precision : Value → Outcome ℕ
unfolding to_decimal
currency_precision null = ok default_currency_precision
currency_precision empty_text = ok default_currency_precision
currency_precision configured = converted_precision (to_decimal configured none)

unfoldable pub quantize_money : Decimal → Value → Outcome Decimal
unfolding currency_precision
quantize_money amount precision = do
  places ← currency_precision precision
  ok (quantize places amount)

abbrev pub times : Decimal → Decimal → Decimal
times a b = record { coefficient = a.coefficient *ℤ b.coefficient; places = a.places + b.places }

unfoldable pub convert_to_base : Decimal → Decimal → Value → Outcome Decimal
unfolding quantize_money
convert_to_base amount rate precision = quantize_money (times amount rate) precision
