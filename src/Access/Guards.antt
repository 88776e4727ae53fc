-- ===== src/Access/Guards.antt =====
-- The checks of backend/app/modules/auth/service.py that the calls on users and roles share, and
-- `validate_password_strength` of backend/app/core/security.py.
use lcs_system.Shared.{
  ℕ, ltb, leb, ◌==◌, if◌then◌else◌, Bool, true, ◌&&◌, ◌||◌, not, Option, none, some, List, [], ◌∷◌,
  length, is_empty, Outcome, ok, ◌>>=◌, ◌>>◌, raise_if, or_raise, access_denied, validation_failed,
  conflict, record_active, Text, codes, strip, upper, text_eqb,
}
use lcs_system.Auth.{User}
use lcs_system.Access.{
  Role, Assignment, Grant, any, mem, super_admin_role, is_active, active_user, role_by_code,
  user_role_codes, users_with_role, role_permission_codes,
}
use lcs_system.Access.Permissions.{Catalogue, resolve_role_codes}

-- The parts of `RequestContext` that the checks ask.
pub record Actor : Type 0 where
  pub user_id : ℕ
  pub is_platform_admin : Bool
  pub has_permission : Text → Bool

abbrev pub is_super : Text → Bool
is_super code = text_eqb code super_admin_role

unfoldable pub assert_can_manage_protected_role : Actor → Text → Outcome (Unit {0})
assert_can_manage_protected_role actor code =
    raise_if (is_super code && not actor.is_platform_admin) access_denied

abbrev pub holds_all : Actor → List Text → Bool
holds_all actor [] = true
holds_all actor (c ∷ cs) = actor.has_permission c && holds_all actor cs

unfoldable pub assert_can_grant_permissions : Catalogue → Actor → List Text → Outcome (Unit {0})
assert_can_grant_permissions catalogue actor cs =
    raise_if
      (not actor.is_platform_admin && not (holds_all actor (resolve_role_codes catalogue cs)))
      access_denied

unfoldable pub assert_can_assign_role : Catalogue → Actor → List Grant → Text → Outcome (Unit {0})
unfolding assert_can_grant_permissions
assert_can_assign_role catalogue actor grants code =
    assert_can_grant_permissions catalogue actor (role_permission_codes code grants)

-- What is asked of each value of a list, in turn.
abbrev pub for_each : (Text → Outcome (Unit {0})) → List Text → Outcome (Unit {0})
for_each check [] = ok tt
for_each check (c ∷ cs) = check c >> for_each check cs

-- `_load_roles`: each code is that of an active role.
unfoldable pub load_roles : List Role → List Text → Outcome (Unit {0})
load_roles roles = for_each (λ code.
    or_raise (role_by_code code roles) validation_failed >>= λ role.
    raise_if (not (is_active role.status)) validation_failed)

unfoldable pub assert_can_touch_super_admin : Actor → List Text → List Text → Outcome (Unit {0})
assert_can_touch_super_admin actor current requested =
    raise_if
      (not actor.is_platform_admin
        && (mem super_admin_role current || mem super_admin_role requested))
      access_denied

abbrev pub other_active : ℕ → List User → ℕ → Bool
other_active key users k = not (k == key) && active_user k users

-- A super administrator loses the role, and no other one is active.
abbrev pub is_last_admin : ℕ → List Text → List User → List Assignment → Bool
is_last_admin key new_codes users rows =
    not (mem super_admin_role new_codes)
    && mem super_admin_role (user_role_codes key rows)
    && not (any (other_active key users) (users_with_role super_admin_role rows))

unfoldable pub assert_super_admin_remains :
    ℕ → List Text → List User → List Assignment → Outcome (Unit {0})
assert_super_admin_remains key new_codes users rows =
    raise_if (is_last_admin key new_codes users rows) validation_failed

-- `_requested_role_codes`
unfoldable pub requested_role_codes : Option Text → Option (List Text)
requested_role_codes none = none
requested_role_codes (some t) = some (if is_empty (strip t) then [] else strip t ∷ [])

abbrev pub within : List Text → List Text → Bool
within [] ys = true
within (x ∷ xs) ys = mem x ys && within xs ys

-- `set(requested) == set(current)`
abbrev pub same_codes : List Text → List Text → Bool
same_codes xs ys = within xs ys && within ys xs

-- `deletion.require_inactive`
unfoldable pub require_inactive : Text → Outcome (Unit {0})
require_inactive status = raise_if (is_active (strip status)) (conflict record_active)

-- The lengths that the settings allow for a password.
pub record PasswordPolicy : Type 0 where
  pub min_length : ℕ
  pub max_length : ℕ

abbrev common_passwords : List Text
common_passwords =
    codes "PASSWORD"
    ∷ codes "PASSWORD123"
    ∷ codes "CHANGEME"
    ∷ codes "CHANGEME123"
    ∷ codes "ADMIN123"
    ∷ codes "LETMEIN"
    ∷ codes "QWERTY123"
    ∷ []

abbrev is_between : ℕ → ℕ → ℕ → Bool
is_between low high c = leb low c && leb c high

abbrev is_upper : ℕ → Bool
is_upper = is_between 65 90

abbrev is_lower : ℕ → Bool
is_lower = is_between 97 122

abbrev is_digit : ℕ → Bool
is_digit = is_between 48 57

-- Whether a new password fails the policy. Case is folded to capitals here, over ASCII.
unfoldable pub is_weak : PasswordPolicy → Text → Bool
is_weak policy password =
    ltb (length password) policy.min_length
    || ltb policy.max_length (length password)
    || mem (upper password) common_passwords
    || not (any is_upper password)
    || not (any is_lower password)
    || not (any is_digit password)
    || not (any (λ c. not (is_upper c || is_lower c || is_digit c)) password)
