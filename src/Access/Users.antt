-- ===== src/Access/Users.antt =====
-- The calls on users of backend/app/modules/auth/service.py: `create_user`, `update_user`,
-- `assign_role`, `remove_role`, `set_user_password`, `force_logout_user`, `delete_users`. A refused
-- call carries no new tables. Names, e-mail changes and the other columns of a profile are left out.
pub mod Passed
use lcs_system.Shared.{
  ℕ, ◌+◌, ◌==◌, if◌then◌else◌, Bool, true, false, ◌&&◌, ◌||◌, not, Option, none, some, or_else,
  List, [], ◌∷◌, map, where_rows, is_found, is_empty, Outcome, ok, ◌>>=◌, ◌>>◌, raise_if, or_raise,
  access_denied, not_found, validation_failed, conflict, duplicate_email, duplicate_username,
  duplicate_user_code, Text, strip, upper, text_eqb,
}
use lcs_system.Auth.{User, UserCredential, forgive, modify_credential, credential_for_user}
use lcs_system.Auth.Sessions.{UserSession}
use lcs_system.Access.{
  Role, Directory, any, mem, super_admin_role, active, is_active, user_by_id, active_user,
  role_by_id, role_by_code, user_role_codes, users_with_role, set_user_roles,
}
use lcs_system.Access.Permissions.{Catalogue}
use lcs_system.Access.Guards.{
  Actor, is_super, assert_can_manage_protected_role, assert_can_assign_role, for_each, load_roles,
  assert_can_touch_super_admin, assert_super_admin_remains, requested_role_codes, same_codes,
  require_inactive, PasswordPolicy, is_weak,
}
use lcs_system.Access.Accounts.{
  UserInput, UserChange, RoleRef, modify_user, open_session, bump_version, revoke_all_sessions,
  text_or, code_taken, not_system_role, refuses_role, refuses_status, new_user, new_credential,
  with_new_user, with_status, given_code, with_code, role_in, with_roles, put_password, super_of,
  in_keys, leaves_admin, without_users, found_keys, inactive_all, by_id, by_code, no_role,
}

module _ (catalogue : Catalogue) (actor : Actor) where
  unfoldable pub create_user :
      PasswordPolicy → (Text → Text) → UserInput → Directory → Outcome Directory
  create_user policy hash_password input d = do
    raise_if (any (λ u. text_eqb u.email input.email) d.users) (conflict duplicate_email)
    raise_if (any (λ u. text_eqb u.username input.username) d.users) (conflict duplicate_username)
    let code = strip (text_or input.user_code (upper input.username))
    raise_if (any (λ u. text_eqb u.user_code code) d.users) (conflict duplicate_user_code)
    let requested = or_else (requested_role_codes input.role_code) []
    raise_if (is_empty requested) validation_failed
    for_each (assert_can_manage_protected_role actor) requested
    load_roles d.roles requested
    for_each (assert_can_assign_role catalogue actor d.grants) requested
    raise_if (is_weak policy input.password) validation_failed
    ok (with_new_user code (hash_password input.password) requested input d)

  -- `if requested is not None`: the roles of a user are replaced.
  unfoldable pub change_roles : ℕ → Option (List Text) → Directory → Outcome Directory
  change_roles key none d = ok d
  change_roles key (some requested) d = do
    let current = user_role_codes key d.assignments
    if same_codes requested current then ok d else do
      raise_if (actor.user_id == key) access_denied
      assert_can_touch_super_admin actor current requested
      for_each (assert_can_manage_protected_role actor) requested
      load_roles d.roles requested
      for_each (assert_can_assign_role catalogue actor d.grants) requested
      assert_super_admin_remains key requested d.users d.assignments
      ok (with_roles key requested d)

  -- `if data.get("status") is not None`, with the roles that the user had before the call.
  unfoldable pub change_user_status :
      ℕ → ℕ → List Text → Option Text → Directory → Outcome Directory
  change_user_status now key current none d = ok d
  change_user_status now key current (some status) d = do
    let written = with_status key status d
    if is_active status then ok written else do
      raise_if (actor.user_id == key) access_denied
      assert_can_touch_super_admin actor current []
      assert_super_admin_remains key [] d.users d.assignments
      ok (revoke_all_sessions now key written)

  unfoldable pub update_user : ℕ → ℕ → UserChange → Directory → Outcome Directory
  unfolding change_roles change_user_status
  update_user now key input d = do
    user ← or_raise (user_by_id key d.users) not_found
    let requested = requested_role_codes input.role_code
    let current = user_role_codes key d.assignments
    raise_if (refuses_role user requested) access_denied
    raise_if (refuses_status user input.status) access_denied
    coded ← with_code key (given_code input.user_code) d
    changed ← change_roles key requested coded
    change_user_status now key current input.status changed

  unfoldable pub assign_role : ℕ → RoleRef → Directory → Outcome Directory
  assign_role key ref d = do
    user ← or_raise (user_by_id key d.users) not_found
    role ← or_raise (role_in ref d.roles) not_found
    raise_if (not (is_active role.status)) validation_failed
    let current = user_role_codes key d.assignments
    raise_if (user.is_system_admin && not (is_super role.code)) access_denied
    assert_can_manage_protected_role actor role.code
    if mem role.code current then ok d else do
      raise_if (actor.user_id == key) access_denied
      assert_can_touch_super_admin actor current (role.code ∷ [])
      assert_can_assign_role catalogue actor d.grants role.code
      assert_super_admin_remains key (role.code ∷ []) d.users d.assignments
      ok (with_roles key (role.code ∷ []) d)

  unfoldable pub remove_role : ℕ → Text → Directory → Outcome Directory
  remove_role key code d = do
    user ← or_raise (user_by_id key d.users) not_found
    let current = user_role_codes key d.assignments
    raise_if (not (mem code current)) not_found
    raise_if user.is_system_admin access_denied
    raise_if (actor.user_id == key) access_denied
    assert_can_touch_super_admin actor current []
    let remaining = where_rows (λ c. not (text_eqb c code)) current
    assert_super_admin_remains key remaining d.users d.assignments
    ok (with_roles key remaining d)

  -- Names the role only when it is the protected one.
  unfoldable pub set_user_password :
      PasswordPolicy → (Text → Text) → ℕ → ℕ → Text → Directory → Outcome Directory
  set_user_password policy hash_password now key password d = do
    user ← or_raise (user_by_id key d.users) not_found
    assert_can_manage_protected_role actor (super_of (user_role_codes key d.assignments))
    raise_if (is_weak policy password) validation_failed
    ok (
        revoke_all_sessions now key
          (record d { credentials = put_password key (hash_password password) d.credentials }))

  unfoldable pub delete_users : List ℕ → Directory → Outcome Directory
  delete_users keys d = do
    let gone = where_rows (λ u. in_keys keys u.id) d.users
    let gone_keys = found_keys keys d.users
    raise_if (any (λ u. u.is_system_admin) gone) access_denied
    raise_if (in_keys keys actor.user_id) access_denied
    raise_if (not (leaves_admin gone_keys d)) validation_failed
    inactive_all gone
    let left = without_users gone_keys d
    raise_if (is_empty left.users) validation_failed
    ok left

unfoldable pub force_logout_user : ℕ → ℕ → Directory → Outcome Directory
force_logout_user now key d = do
  user ← or_raise (user_by_id key d.users) not_found
  ok (revoke_all_sessions now key d)
