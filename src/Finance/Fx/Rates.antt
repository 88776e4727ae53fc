-- ===== src/Finance/Fx/Rates.antt =====
-- Which exchange rates are accepted, and what is stored for one.
use native.Mathlib.Decide.{dec_le}
use native.Mathlib.Nat.{mul-le-mul_left, mul-le-mul_right}
use lcs_system.Shared.{
  ℕ, zero, suc, ◌-◌, ◌*◌, ◌^◌, ◌≤◌, ◌<◌, ◌≡◌, arith, ℤ, pos, negsuc, ◌*ℤ◌, ◌≤ℤ◌, leb, true, ◌&&◌,
  ok, err, Outcome-cases, inl, inr, none, ap, validation_failed, sym, ◌∙◌, ltb, if◌then◌else◌,
}
use lcs_system.Finance.Fx.{
  Decimal, Number, finite, nan, infinity, Value, decimal, max_rate, rate_places, half_up,
  round_half_up, quantize, to_decimal, is_valid_rate, normalize_number, normalize_rate,
}
use lcs_system.Finance.Fx.Rounding.{pow_add, pow_pos, half_up_le, half_up_pos, half_up_zero}

-- What is stored: eight places, above zero, and at most the largest plausible rate.
abbrev pub IsStoredRate : Decimal → Type 0
IsStoredRate q =
    (q.places ≡ rate_places)
    × (pos 1 ≤ℤ q.coefficient)
    × (q.coefficient ≤ℤ pos (max_rate * 10 ^ rate_places))

-- The stored coefficient of a positive rate.
abbrev stored : ℕ → ℕ → ℕ
stored n places = if leb places 8 then n * 10 ^ (8 - places) else half_up (10 ^ (places - 8)) n

quantize-pos :
    (n places : ℕ)
    → quantize rate_places (record { coefficient = pos n; places = places })
      ≡ record { coefficient = pos (stored n places); places = rate_places }
unfolding quantize round_half_up ◌*ℤ◌ stored
quantize-pos n places = ground arith

-- The power of ten of a value, against that of the stored scale.
finer : (places : ℕ) → places ≤ 8 → 10 ^ places * 10 ^ (8 - places) ≡ 10 ^ 8
finer places h = sym (pow_add places (8 - places)) ∙ ap (λ (k : ℕ). 10 ^ k) {y = 8} (omega arith)

coarser : (places : ℕ) → 8 < places → 10 ^ 8 * 10 ^ (places - 8) ≡ 10 ^ places
coarser places h = sym (pow_add 8 (places - 8)) ∙ ap (λ (k : ℕ). 10 ^ k) {y = places} (omega arith)

stored_le : (n places : ℕ) → n ≤ max_rate * 10 ^ places → stored n places ≤ max_rate * 10 ^ 8
unfolding stored
stored_le n places h = elim (dec_le places 8) [
  | yes p ↦ ground (arith, mul-le-mul_right (10 ^ (8 - places)) h, finer places p)
  | no p ↦ ground (
    arith,
    half_up_le (10 ^ (places - 8)) n (max_rate * 10 ^ 8) (pow_pos (places - 8)),
    coarser places (omega arith),
  )
]

-- A positive rate is stored as more than zero exactly if it is at least half of the last place.
stored_pos : (n places : ℕ) → 0 < n → ltb 0 (stored n places) ≡ leb (10 ^ places) (2 * n * 10 ^ 8)
unfolding stored
stored_pos n places h = elim (dec_le places 8) [
  | yes p ↦ ground (
    arith,
    mul-le-mul_left (10 ^ places) (pow_pos (8 - places)),
    mul-le-mul_left n (pow_pos (8 - places)),
    finer places p,
  )
  | no p ↦ ground (
    arith,
    half_up_pos (10 ^ (places - 8)) n (pow_pos (places - 8)),
    half_up_zero (10 ^ (places - 8)) n (pow_pos (places - 8)),
    coarser places (omega arith),
  )
]

-- What the checks make of a rate above zero: it is stored if it is plausible and at least half of the
-- last stored place.
normalize_positive :
    (n places : ℕ)
    → 0 < n
    → normalize_number (finite (record { coefficient = pos n; places = places })) ≡ (
        if leb n (max_rate * 10 ^ places) && leb (10 ^ places) (2 * n * 10 ^ 8)
        then ok (record { coefficient = pos (stored n places); places = rate_places })
        else err validation_failed)
unfolding normalize_number
normalize_positive n places h = rw quantize-pos (ground (arith, stored_pos n places h))

finite-IsStoredRate :
    (c : ℤ) (places : ℕ) {q : Decimal}
    → normalize_number (finite (record { coefficient = c; places = places })) ≡ ok q
    → IsStoredRate q
unfolding normalize_number
finite-IsStoredRate (pos zero) places h = ground arith
finite-IsStoredRate (pos (suc n)) places h = ground (
  arith,
  normalize_positive (suc n) places (omega arith),
  stored_pos (suc n) places (omega arith),
  stored_le (suc n) places,
)
finite-IsStoredRate (negsuc n) places h = ground arith

number-IsStoredRate : (r : Number) {q : Decimal} → normalize_number r ≡ ok q → IsStoredRate q
unfolding normalize_number
number-IsStoredRate (finite d) h = finite-IsStoredRate d.coefficient d.places h
number-IsStoredRate nan h = ground arith
number-IsStoredRate infinity h = ground arith

-- Whatever value is sent, a rate that `normalize_rate` returns has eight places, is above zero, and
-- is at most the largest plausible rate.
pub normalize_rate-IsStoredRate :
    (v : Value) {q : Decimal} → normalize_rate v ≡ ok q → IsStoredRate q
unfolding normalize_rate
normalize_rate-IsStoredRate v h = elim (Outcome-cases (to_decimal v none)) [
  | inl (e, refused) ↦ ground arith
  | inr (r, read) ↦ number-IsStoredRate r (rw (read, normalize_rate) at h)
]

stored_eight : (n places : ℕ) → places ≡ 8 → stored n places ≡ n
unfolding stored
stored_eight n places h = rw h (omega arith)

stored_again :
    (c : ℤ) (places : ℕ)
    → IsStoredRate (record { coefficient = c; places = places })
    → normalize_number (finite (record { coefficient = c; places = places }))
      ≡ ok (record { coefficient = c; places = places })
stored_again (pos n) places s = ground (
  arith,
  normalize_positive n places (omega arith),
  stored_eight n places s.0,
  ap (λ (k : ℕ). 10 ^ k) s.0,
)
stored_again (negsuc n) places s = absurd (omega arith)

-- A stored rate is kept as it is when it is validated again.
pub normalize_stored : (q : Decimal) → IsStoredRate q → normalize_rate (decimal (finite q)) ≡ ok q
unfolding normalize_rate
normalize_stored q h = stored_again q.coefficient q.places h

-- A positive rate that `is_valid_rate` accepts is stored exactly if it is at least half of the last
-- stored place; a smaller one is refused.
pub valid_rate_split :
    (n places : ℕ)
    → let rate = decimal (finite (record { coefficient = pos n; places = places })) in
      0 < n
      → n ≤ max_rate * 10 ^ places
      → (is_valid_rate rate ≡ true)
        × (normalize_rate rate ≡ (
            if leb (10 ^ places) (2 * n * 10 ^ 8)
            then ok (record { coefficient = pos (stored n places); places = rate_places })
            else err validation_failed))
unfolding is_valid_rate normalize_rate
valid_rate_split n places h le = (ground arith, ground (arith, normalize_positive n places h))
