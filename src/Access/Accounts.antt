-- ===== src/Access/Accounts.antt =====
-- The payloads of the calls on users of backend/app/modules/auth/service.py, and the rows that the
-- calls write and ask.
use lcs_system.Shared.{
  ℕ, ◌+◌, ◌==◌, if◌then◌else◌, Bool, true, false, ◌&&◌, ◌||◌, not, Option, none, some, List, [],
  ◌∷◌, map, where_rows, is_found, is_empty, Outcome, ok, ◌>>◌, raise_if, conflict,
  duplicate_user_code, Text, strip, upper, text_eqb,
}
use lcs_system.Auth.{User, UserCredential, forgive, modify_credential, credential_for_user}
use lcs_system.Auth.Sessions.{UserSession}
use lcs_system.Access.{
  Role, Directory, any, mem, super_admin_role, active, is_active, active_user, role_by_id,
  role_by_code, users_with_role, set_user_roles,
}
use lcs_system.Access.Guards.{is_super, require_inactive}

pub record UserInput : Type 0 where
  pub email : Text
  pub username : Text
  pub user_code : Option Text
  pub role_code : Option Text
  pub password : Text
  pub status : Option Text

pub record UserChange : Type 0 where
  pub user_code : Option Text
  pub role_code : Option Text
  pub status : Option Text

-- `role_id` and `role_code` of a payload: the first that is given.
pub data RoleRef : Type 0 where
  by_id : ℕ → RoleRef
  by_code : Text → RoleRef
  no_role : RoleRef

abbrev pub modify_user : ℕ → (User → User) → List User → List User
modify_user key f = map (λ u. if u.id == key then f u else u)

abbrev pub open_session : ℕ → UserSession → Bool
open_session key s = s.user_id == key && not (is_found s.revoked_at)

abbrev pub bump_version : User → User
bump_version u = record u { token_version = u.token_version + 1 }

unfoldable pub revoke_all_sessions : ℕ → ℕ → Directory → Directory
revoke_all_sessions now key d = record d {
  users = modify_user key bump_version d.users;
  sessions =
      map (λ s. if open_session key s then record s { revoked_at = some now } else s) d.sessions;
}

abbrev pub text_or : Option Text → Text → Text
text_or none t = t
text_or (some []) t = t
text_or (some (c ∷ s)) t = c ∷ s

-- Another user's code is not taken.
abbrev pub code_taken : ℕ → Text → List User → Bool
code_taken key code = any (λ u. text_eqb u.user_code code && not (u.id == key))

abbrev pub not_system_role : List Text → Bool
not_system_role (code ∷ []) = not (is_super code)
not_system_role _ = true

abbrev pub refuses_role : User → Option (List Text) → Bool
refuses_role u none = false
refuses_role u (some requested) = u.is_system_admin && not_system_role requested

abbrev pub refuses_status : User → Option Text → Bool
refuses_status u none = false
refuses_status u (some status) = u.is_system_admin && not (is_active status)

abbrev pub new_user : ℕ → Text → UserInput → User
new_user key code input = record {
  id = key;
  user_code = code;
  username = input.username;
  email = input.email;
  status = upper (text_or input.status active);
  is_system_admin = false;
  token_version = 0;
}

abbrev pub new_credential : ℕ → Text → UserCredential
new_credential key hash = record {
  user_id = key;
  password_hash = hash;
  failed_attempt_count = 0;
  locked_until = none;
}

-- The rows of a new user.
abbrev pub with_new_user : Text → Text → List Text → UserInput → Directory → Directory
with_new_user code hash requested input d = record d {
  users = new_user d.next_id code input ∷ d.users;
  credentials = new_credential d.next_id hash ∷ d.credentials;
  assignments = set_user_roles d.next_id requested d.assignments;
  next_id = d.next_id + 1;
}

abbrev pub with_status : ℕ → Text → Directory → Directory
with_status key status d = record d {
  users = modify_user key (λ u. record u { status = upper status }) d.users;
}

-- `dict`-like access to a code that may be blank.
abbrev pub given_code : Option Text → Option Text
given_code none = none
given_code (some t) = if is_empty (strip t) then none else some (strip t)

abbrev pub with_code : ℕ → Option Text → Directory → Outcome Directory
with_code key none d = ok d
with_code key (some code) d =
    raise_if (code_taken key code d.users) (conflict duplicate_user_code)
    >> ok (record d { users = modify_user key (λ u. record u { user_code = code }) d.users })

abbrev pub role_in : RoleRef → List Role → Option Role
role_in (by_id key) roles = role_by_id key roles
role_in (by_code code) roles = role_by_code code roles
role_in no_role roles = none

abbrev pub with_roles : ℕ → List Text → Directory → Directory
with_roles key requested d = record d { assignments = set_user_roles key requested d.assignments }

abbrev with_password : Text → UserCredential → UserCredential
with_password hash c = record (forgive c) { password_hash = hash }

abbrev pub put_password : ℕ → Text → List UserCredential → List UserCredential
put_password key hash rows = elim (credential_for_user key rows) [
  | none ↦ new_credential key hash ∷ rows
  | some _ ↦ modify_credential key (with_password hash) rows
]

abbrev pub super_of : List Text → Text
super_of current = if mem super_admin_role current then super_admin_role else []

abbrev pub in_keys : List ℕ → ℕ → Bool
in_keys keys k = any (λ j. j == k) keys

-- Deleting super administrators leaves an active one.
abbrev pub leaves_admin : List ℕ → Directory → Bool
leaves_admin keys d =
    let admins = users_with_role super_admin_role d.assignments in
    not (any (in_keys keys) admins)
    || any (λ k. not (in_keys keys k) && active_user k d.users) admins

abbrev pub without_users : List ℕ → Directory → Directory
without_users keys d = record d {
  users = where_rows (λ u. not (in_keys keys u.id)) d.users;
  credentials = where_rows (λ c. not (in_keys keys c.user_id)) d.credentials;
  sessions = where_rows (λ s. not (in_keys keys s.user_id)) d.sessions;
  assignments = where_rows (λ a. not (in_keys keys a.user_id)) d.assignments;
}

-- The keys of a list that users have.
abbrev pub found_keys : List ℕ → List User → List ℕ
found_keys keys users = map (λ u. u.id) (where_rows (λ u. in_keys keys u.id) users)

abbrev pub inactive_all : List User → Outcome (Unit {0})
inactive_all [] = ok tt
inactive_all (u ∷ us) = require_inactive u.status >> inactive_all us
