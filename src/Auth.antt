-- ===== src/Auth.antt =====
-- Signing in: `authenticate` and `lockout_policy` of backend/app/modules/auth/service.py, with the
-- two searches of repository.py that they use. The check of a password against a hash, which is
-- argon2's, is an argument. An attempt writes its account even when it is refused, so that the
-- answer stands beside the accounts. Attempts take turns here; nothing in the code makes them.
pub mod Budget
pub mod Lockout
pub mod Sessions
pub mod Tests
use lcs_system.Shared.{
  ℕ, ◌+◌, ◌*◌, leb, ltb, ◌==◌, if◌then◌else◌, Bool, true, false, ◌||◌, not, Option, none, some,
  List, [], ◌∷◌, ℤ, pos, negsuc, first_row, Text, codes, upper, text_eqb,
}

pub record User : Type 0 where
  pub id : ℕ
  pub user_code : Text
  pub username : Text
  pub email : Text
  pub status : Text
  -- whether `system_identity` is that of the built-in administrator
  pub is_system_admin : Bool
  pub token_version : ℕ

-- Times are counts of microseconds.
pub record UserCredential : Type 0 where
  pub user_id : ℕ
  pub password_hash : Text
  pub failed_attempt_count : ℕ
  pub locked_until : Option ℕ

pub record Accounts : Type 0 where
  pub users : List User
  pub credentials : List UserCredential

abbrev max_failed_attempts : ℕ
max_failed_attempts = 5

abbrev lockout_minutes : ℕ
lockout_minutes = 15

abbrev pub clamp : ℕ → ℕ → ℕ → ℕ
clamp low high n = let m = if leb high n then high else n in if leb m low then low else m

-- A setting is given as what `int` makes of it, if it makes anything.
abbrev pub clamped_int : Option ℤ → ℕ → ℕ → ℕ → ℕ
clamped_int none default low high = default
clamped_int (some (negsuc _)) default low high = low
clamped_int (some (pos n)) default low high = clamp low high n

pub record SecuritySettings : Type 0 where
  pub max_login_attempts : Option ℤ
  pub account_lock_minutes : Option ℤ

-- The attempts and the minutes; with no readable settings, the defaults.
unfoldable pub lockout_policy : Option SecuritySettings → ℕ × ℕ
lockout_policy none = (max_failed_attempts, lockout_minutes)
lockout_policy (some s) = (
  clamped_int s.max_login_attempts max_failed_attempts 3 100,
  clamped_int s.account_lock_minutes lockout_minutes 1 1440,
)

abbrev pub user_by_login : Text → List User → Option User
user_by_login login = first_row (λ u. text_eqb u.username login || text_eqb u.email login)

abbrev pub credential_for_user : ℕ → List UserCredential → Option UserCredential
credential_for_user key = first_row (λ c. c.user_id == key)

abbrev pub modify_credential :
    ℕ → (UserCredential → UserCredential) → List UserCredential → List UserCredential
modify_credential key f [] = []
modify_credential key f (c ∷ cs) =
    let rest = modify_credential key f cs in if c.user_id == key then f c ∷ cs else c ∷ rest

abbrev pub is_locked : Option ℕ → ℕ → Bool
is_locked none now = false
is_locked (some until) now = ltb now until

abbrev pub lock_time : ℕ → ℕ
lock_time minutes = minutes * 60000000

-- A wrong password is counted, and the account locked when the count is full.
unfoldable pub count_failure : ℕ × ℕ → ℕ → UserCredential → UserCredential
count_failure policy now c =
    let count = c.failed_attempt_count + 1 in
    if leb policy.0 count
    then record c { locked_until = some (now + lock_time policy.1); failed_attempt_count = 0 }
    else record c { failed_attempt_count = count }

abbrev pub forgive : UserCredential → UserCredential
forgive c = record c { failed_attempt_count = 0; locked_until = none }

pub data Login : Type 0 where
  signed_in : ℕ → Login
  refused locked inactive : Login

pub record Attempt : Type 0 where
  pub login : Text
  pub password : Text
  pub now : ℕ

abbrev pub with_credential : ℕ → (UserCredential → UserCredential) → Accounts → Accounts
with_credential key f s = record s { credentials = modify_credential key f s.credentials }

module _ (verify_password : Text → Text → Bool) (settings : Option SecuritySettings) where
  abbrev pub try_password : Attempt → User → UserCredential → Accounts → Accounts × Login
  try_password a u c s =
      if is_locked c.locked_until a.now
      then (s, locked)
      else if not (verify_password a.password c.password_hash)
      then (with_credential u.id (count_failure (lockout_policy settings) a.now) s, refused)
      else if not (text_eqb (upper u.status) (codes "ACTIVE"))
      then (s, inactive)
      else (with_credential u.id forgive s, signed_in u.id)

  unfoldable pub authenticate : Attempt → Accounts → Accounts × Login
  authenticate a s = elim (user_by_login a.login s.users) [
    | none ↦ (s, refused)
    | some u ↦ elim (credential_for_user u.id s.credentials) [
      | none ↦ (s, refused)
      | some c ↦ try_password a u c s
    ]
  ]

  -- The answers to a sequence of attempts.
  unfoldable pub answers : List Attempt → Accounts → List Login
  unfolding authenticate
  answers [] s = []
  answers (a ∷ rest) s = let (s', answer) = authenticate a s in answer ∷ answers rest s'
