-- ===== src/Auth/Budget.antt =====
-- How many passwords the lockout policy lets somebody try: `lockout_policy` and the count of
-- `authenticate`, of backend/app/modules/auth/service.py.
use lcs_system.Shared.{
  ℕ, suc, ◌+◌, ◌-◌, ◌≤◌, ◌<◌, leb, ltb, if◌then◌else◌, true, false, ◌≡◌, refl, Option, none, some,
  List, [], ◌∷◌, All, arith, inl, inr, Bool-cases, All-imp, ℤ, pos, negsuc,
}
use lcs_system.Auth.{
  UserCredential, SecuritySettings, lockout_policy, is_locked, lock_time, count_failure, clamp,
  clamped_int,
}

clamp_bounds : (low high n : ℕ) → low ≤ high → (low ≤ clamp low high n) × (clamp low high n ≤ high)
clamp_bounds low high n h = ground arith

clamped_bounds :
    (setting : Option ℤ) (default low high : ℕ)
    → low ≤ default
    → default ≤ high
    → (low ≤ clamped_int setting default low high) × (clamped_int setting default low high ≤ high)
clamped_bounds none default low high l h = (l, h)
clamped_bounds (some (negsuc _)) default low high l h = omega (arith, l, h)
clamped_bounds (some (pos n)) default low high l h = clamp_bounds low high n (omega (arith, l, h))

-- Whatever the settings are, an account is locked after three to a hundred wrong passwords, for a
-- minute to a day.
pub lockout_policy-bounds :
    (settings : Option SecuritySettings)
    → (3 ≤ (lockout_policy settings).0)
      × ((lockout_policy settings).0 ≤ 100)
      × (1 ≤ (lockout_policy settings).1)
      × ((lockout_policy settings).1 ≤ 1440)
unfolding lockout_policy
lockout_policy-bounds none = (omega arith, omega arith, omega arith, omega arith)
lockout_policy-bounds (some s) =
    let (a, b) = clamped_bounds s.max_login_attempts 5 3 100 (omega arith) (omega arith) in
    let (c, d) = clamped_bounds s.account_lock_minutes 15 1 1440 (omega arith) (omega arith) in
    (a, b, c, d)

-- The guesses that are tested against a hash, of those made at some times.
unfoldable pub tested : ℕ × ℕ → List ℕ → UserCredential → ℕ
tested policy [] c = 0
tested policy (t ∷ ts) c =
    let kept = tested policy ts c in
    let counted = tested policy ts (count_failure policy t c) in
    if is_locked c.locked_until t then kept else suc counted

pub none_tested :
    (policy : ℕ × ℕ) (until : ℕ) (ts : List ℕ) (c : UserCredential)
    → c.locked_until ≡ some until
    → All (λ t. t < until) ts
    → tested policy ts c ≡ 0
unfolding tested
none_tested policy until [] c h before = refl
none_tested policy until (t ∷ ts) c h before =
    ground (arith, h, none_tested policy until ts c h before.1, before.0)

pub budget : ℕ → ℕ → ℕ
budget most count = if ltb count most then most - count else 1

budget_positive : (most count : ℕ) → 1 ≤ budget most count
unfolding budget
budget_positive most count = ground arith

pub budget_most : (most count : ℕ) → 1 ≤ most → budget most count ≤ most
unfolding budget
budget_most most count h = ground (arith, h)

budget_step :
    (most count n : ℕ)
    → leb most (count + 1) ≡ false
    → n ≤ budget most (count + 1)
    → suc n ≤ budget most count
unfolding budget
budget_step most count n p h = ground (arith, p, h)

count_failure-counts :
    (policy : ℕ × ℕ) (t : ℕ) (c : UserCredential)
    → leb policy.0 (c.failed_attempt_count + 1) ≡ false
    → (count_failure policy t c).failed_attempt_count ≡ c.failed_attempt_count + 1
unfolding count_failure
count_failure-counts policy t c p = rw p refl

count_failure-locks :
    (policy : ℕ × ℕ) (t : ℕ) (c : UserCredential)
    → leb policy.0 (c.failed_attempt_count + 1) ≡ true
    → (count_failure policy t c).locked_until ≡ some (t + lock_time policy.1)
unfolding count_failure
count_failure-locks policy t c p = rw p refl

-- A guess that is tested uses up what is left of the budget, by one at least.
counted_budget :
    (policy : ℕ × ℕ) (start t : ℕ) (ts : List ℕ) (c : UserCredential)
    → start ≤ t
    → All (λ x. (start ≤ x) × (x < start + lock_time policy.1)) ts
    → tested policy ts (count_failure policy t c)
      ≤ budget policy.0 (count_failure policy t c).failed_attempt_count
    → suc (tested policy ts (count_failure policy t c)) ≤ budget policy.0 c.failed_attempt_count
unfolding count_failure
counted_budget policy start t ts c after within rest =
    elim (Bool-cases (leb policy.0 (c.failed_attempt_count + 1))) [
      | inl p ↦
          let until = t + lock_time policy.1 in
          let before =
            All-imp (λ x. (start ≤ x) × (x < start + lock_time policy.1)) (λ x. x < until) ts
              (λ x h. omega (arith, h.1, after)) within in
          let none_left =
            none_tested policy until ts (count_failure policy t c)
              (count_failure-locks policy t c p) before in
          rw none_left (budget_positive policy.0 c.failed_attempt_count)
      | inr p ↦
          budget_step policy.0 c.failed_attempt_count _ p
            (rw (count_failure-counts policy t c p) at rest)
    ]

-- Guesses made in less time than an account stays locked.
pub tested-budget :
    (policy : ℕ × ℕ) (start : ℕ) (ts : List ℕ) (c : UserCredential)
    → All (λ t. (start ≤ t) × (t < start + lock_time policy.1)) ts
    → tested policy ts c ≤ budget policy.0 c.failed_attempt_count
unfolding tested
tested-budget policy start [] c within = omega arith
tested-budget policy start (t ∷ ts) c within = elim (Bool-cases (is_locked c.locked_until t)) [
  | inl p ↦ rw p (tested-budget policy start ts c within.1)
  | inr p ↦ rw p (
      counted_budget policy start t ts c within.0.0 within.1
        (tested-budget policy start ts (count_failure policy t c) within.1))
]
