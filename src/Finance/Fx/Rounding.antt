-- ===== src/Finance/Fx/Rounding.antt =====
-- `round_half_up` and the unit that it rounds to.
use native.Mathlib.Nat.{
  div-add-mod, mod-lt, pow-suc, mul-le-mul_left, add-zero, add-suc, le-div_iff_mul-le, div-eq_of_lt,
}
use native.Mathlib.Decide.{dec_le}
use lcs_system.Shared.{
  ℕ, zero, suc, ◌+◌, ◌*◌, ◌^◌, ◌≤◌, ◌<◌, ◌≡◌, ap, arith, ℤ, pos, negsuc, ◌-ℤ◌, ◌+ℤ◌, ◌*ℤ◌, ◌≤ℤ◌,
}
use lcs_system.Finance.Fx.{half_up, round_half_up}

-- A power of ten times another.
pub pow_add : (a b : ℕ) → 10 ^ (a + b) ≡ 10 ^ a * 10 ^ b
pow_add a zero = rw add-zero (omega arith)
pow_add a (suc b) =
    rw (add-suc, pow-suc, pow-suc) (omega (arith, ap (λ (t : ℕ). t * 10) (pow_add a b)))

pub pow_pos : (a : ℕ) → 0 < 10 ^ a
pow_pos zero = omega arith
pow_pos (suc a) = rw pow-suc (omega (arith, pow_pos a))

pub half_up_bounds :
    (unit n : ℕ)
    → 0 < unit
    → (2 * (unit * half_up unit n) ≤ 2 * n + unit) × (2 * n < 2 * (unit * half_up unit n) + unit)
half_up_bounds unit n h =
    let e = div-add-mod (2 * n + unit) (2 * unit) in
    let l = mod-lt (2 * n + unit) {m = 2 * unit} (omega arith) in
    (omega (arith, e, l), omega (arith, e, l))

pub half_up_le : (unit n bound : ℕ) → 0 < unit → n ≤ bound * unit → half_up unit n ≤ bound
half_up_le unit n bound h le = elim (dec_le (half_up unit n) bound) [
  | yes p ↦ p
  | no p ↦ absurd (omega (arith, half_up_bounds unit n h, mul-le-mul_left unit (gap p)))
]
  where
    gap : {q : ℕ} → ¬ (q ≤ bound) → bound + 1 ≤ q
    gap h' = omega arith

-- A value rounds to zero exactly when it is below half a unit.
pub half_up_pos : (unit n : ℕ) → 0 < unit → unit ≤ 2 * n → 0 < half_up unit n
half_up_pos unit n h le = (le-div_iff_mul-le (omega arith)).1 (omega arith)

pub half_up_zero : (unit n : ℕ) → 0 < unit → 2 * n < unit → half_up unit n ≡ 0
half_up_zero unit n h lt = div-eq_of_lt (omega arith)

-- Rounding half up to a unit above zero leaves an integer within half a unit of what it rounds.
pub round_half_up_nearest :
    (unit : ℕ) (a : ℤ)
    → 0 < unit
    → let r = pos (2 * unit) *ℤ round_half_up unit a in
      let twice = pos 2 *ℤ a in (r ≤ℤ twice +ℤ pos unit) × (twice ≤ℤ r +ℤ pos unit)
unfolding round_half_up ◌*ℤ◌ ◌-ℤ◌ ◌+ℤ◌
round_half_up_nearest unit (pos n) h = ground (arith, half_up_bounds unit n h)
round_half_up_nearest unit (negsuc n) h = ground (arith, half_up_bounds unit (n + 1) h)
