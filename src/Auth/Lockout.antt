-- ===== src/Auth/Lockout.antt =====
-- The lock against guessed passwords.
use lcs_system.Shared.{
  ◌⊎◌, ℕ, suc, ◌+◌, ◌≤◌, ◌<◌, leb, if◌then◌else◌, Bool, false, ◌≡◌, refl, ◌∙◌, Option, some, List,
  [], ◌∷◌, map, All, Text, arith, inl, inr, Bool-cases, ap,
}
use lcs_system.Auth.{
  User, UserCredential, Accounts, SecuritySettings, lockout_policy, user_by_login,
  credential_for_user, modify_credential, is_locked, lock_time, count_failure, Login, refused,
  locked, Attempt, authenticate, answers, with_credential,
}
use lcs_system.Auth.Budget.{lockout_policy-bounds, tested, budget_most, tested-budget}

-- The answers that a tested wrong password is given.
pub count_refused : List Login → ℕ
count_refused [] = 0
count_refused (refused ∷ rest) = suc (count_refused rest)
count_refused (_ ∷ rest) = count_refused rest

-- An answer that lets nobody in.
abbrev pub IsTurnedAway : Login → Type 0
IsTurnedAway x = (x ≡ refused) ⊎ (x ≡ locked)

credential_for_user-modify :
    (key : ℕ) (f : UserCredential → UserCredential)
    → ((c : UserCredential) → (f c).user_id ≡ c.user_id)
    → (cs : List UserCredential) (c : UserCredential) → credential_for_user key cs ≡ some c
    → credential_for_user key (modify_credential key f cs) ≡ some (f c)
credential_for_user-modify key f same [] c h = cc
credential_for_user-modify key f same (x ∷ cs) c h =
    ground (arith, h, same x, credential_for_user-modify key f same cs c)

count_failure-keeps :
    (policy : ℕ × ℕ) (t : ℕ) (c : UserCredential)
    → ((count_failure policy t c).user_id ≡ c.user_id)
      × ((count_failure policy t c).password_hash ≡ c.password_hash)
unfolding count_failure
count_failure-keeps policy t c = elim (Bool-cases (leb policy.0 (c.failed_attempt_count + 1))) [
  | inl p ↦ rw p (refl, refl)
  | inr p ↦ rw p (refl, refl)
]

module _ (verify_password : Text → Text → Bool) (settings : Option SecuritySettings) where
  -- An attempt to sign in with a wrong password, in less time after `start` than a lock lasts.
  pub record IsGuess (login hash : Text) (start : ℕ) (a : Attempt) : Type 0 where
    pub login_given : a.login ≡ login
    pub wrong : verify_password a.password hash ≡ false
    pub after : start ≤ a.now
    pub before : a.now < start + lock_time (lockout_policy settings).1

  authenticate-guess :
      (a : Attempt) (s : Accounts) (u : User) (c : UserCredential)
      → user_by_login a.login s.users ≡ some u
      → credential_for_user u.id s.credentials ≡ some c
      → verify_password a.password c.password_hash ≡ false
      → authenticate verify_password settings a s ≡ (
          if is_locked c.locked_until a.now
          then (s, locked)
          else (with_credential u.id (count_failure (lockout_policy settings) a.now) s, refused))
  unfolding authenticate
  authenticate-guess a s u c user credential wrong = rw (authenticate, user, credential, wrong) refl

  answers-tested :
      (login hash : Text) (start : ℕ) (u : User) (guesses : List Attempt) (s : Accounts)
      (c : UserCredential)
      → user_by_login login s.users ≡ some u
      → credential_for_user u.id s.credentials ≡ some c
      → c.password_hash ≡ hash
      → All (IsGuess login hash start) guesses
      → let given = answers verify_password settings guesses s in
        (count_refused given ≡ tested (lockout_policy settings) (map (λ a. a.now) guesses) c)
        × All IsTurnedAway given
  unfolding answers tested count_refused
  answers-tested login hash start u [] s c user credential same guessed = (refl, tt)
  answers-tested login hash start u (a ∷ rest) s c user credential same guessed =
      let policy = lockout_policy settings in
      let g = guessed.0 in
      let step = authenticate-guess a s u c (rw g.login_given user) credential (rw same g.wrong) in
      elim (Bool-cases (is_locked c.locked_until a.now)) [
        | inl p ↦
            let (tests, away) =
              answers-tested login hash start u rest s c user credential same guessed.1 in
            rw (step, p) (tests, (inr refl, away))
        | inr p ↦
            let c' = count_failure policy a.now c in
            let s' = with_credential u.id (count_failure policy a.now) s in
            let found =
              credential_for_user-modify u.id (count_failure policy a.now)
                (λ x. (count_failure-keeps policy a.now x).0) s.credentials c credential in
            let (tests, away) =
              answers-tested login hash start u rest s' c' user found
                ((count_failure-keeps policy a.now c).1 ∙ same) guessed.1 in
            rw (step, p) (ap suc tests, (inl refl, away))
      ]

  guess_times :
      (login hash : Text) (start : ℕ) (guesses : List Attempt)
      → All (IsGuess login hash start) guesses
      → All
          (λ t. (start ≤ t) × (t < start + lock_time (lockout_policy settings).1))
          (map (λ a. a.now) guesses)
  guess_times login hash start [] h = tt
  guess_times login hash start (a ∷ rest) h =
      ((h.0.after, h.0.before), guess_times login hash start rest h.1)

  -- Wrong passwords, any number of them, are tried for one account that has a credential, in less
  -- time than a lock lasts and with no other attempt on it in between. Each is turned away, and no
  -- more of them are tested than the attempts of the lockout policy: the others are answered as
  -- locked.
  pub guesses-bounded :
      (login : Text) (start : ℕ) (u : User) (guesses : List Attempt) (s : Accounts)
      (c : UserCredential)
      → user_by_login login s.users ≡ some u
      → credential_for_user u.id s.credentials ≡ some c
      → All (IsGuess login c.password_hash start) guesses
      → let given = answers verify_password settings guesses s in
        All IsTurnedAway given × (count_refused given ≤ (lockout_policy settings).0)
  guesses-bounded login start u guesses s c user credential guessed =
      let policy = lockout_policy settings in
      let (tests, away) =
        answers-tested login c.password_hash start u guesses s c user credential refl guessed in
      let times = guess_times login c.password_hash start guesses guessed in
      let most = tested-budget policy start (map (λ a. a.now) guesses) c times in
      let some_left = lockout_policy-bounds settings in
      (away, omega (arith, tests, most, budget_most policy.0 c.failed_attempt_count, some_left.0))
