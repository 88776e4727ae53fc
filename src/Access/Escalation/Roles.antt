-- ===== src/Access/Escalation/Roles.antt =====
-- The calls on roles, and those that delete, assign no role.
use lcs_system.Shared.{
  ℕ, ◌≡◌, sym, ◌∙◌, ap, Option-cases, inl, inr, true, not, Bool, Option, List, map, where_rows, ok,
  or_raise, raise_if, >>=-eq-ok, >>-eq-ok, ok-injective, not_found, validation_failed, Text,
}
use lcs_system.Access.{Assignment, Directory, mem, user_by_id, user_role_codes, has_role, role_of}
use lcs_system.Access.Permissions.{Catalogue}
use lcs_system.Access.Guards.{Actor, PasswordPolicy, is_weak, assert_can_manage_protected_role}
use lcs_system.Access.Accounts.{in_keys, super_of, found_keys}
use lcs_system.Access.Users.{set_user_password, force_logout_user, delete_users}
use lcs_system.Access.Roles.{
  RoleInput, RoleChange, new_role_code, with_new_role, modify_role, sync_role_permissions,
  changed_role, create_role, update_role, replace_role_permissions, grant_role_permissions,
  revoke_role_permissions, duplicate_role, delete_roles,
}
use lcs_system.Access.Roles.Passed.{
  sync_role_permissions-passed, create_role-passed, change_permissions-passed, update_role-passed,
  replace_role_permissions-passed, grant_role_permissions-passed, revoke_role_permissions-passed,
  duplicate_role-passed, delete_roles-passed,
}
use lcs_system.Access.Users.Passed.{delete_users-passed}
use lcs_system.Access.Escalation.{IsKept}
use lcs_system.Access.Escalation.Rows.{where_rows-any}
use lcs_system.Access.Escalation.Users.{revoke_all_sessions-keeps}

sync_role_permissions-keeps :
    (catalogue : Catalogue) (code : Text) (cs : List Text) (d : Directory) {d' : Directory}
    → sync_role_permissions catalogue code cs d ≡ ok d'
    → d'.assignments ≡ d.assignments
sync_role_permissions-keeps catalogue code cs d e =
    ap (λ x. x.assignments) (sync_role_permissions-passed catalogue code cs d e).1

module _ (catalogue : Catalogue) (actor : Actor) (d : Directory) {d' : Directory} where
  pub create_role-keeps :
      (input : RoleInput)
      → create_role catalogue actor input d ≡ ok d'
      → d'.assignments ≡ d.assignments
  create_role-keeps input e =
      let code = new_role_code input d.roles in
      sync_role_permissions-keeps catalogue code input.permissions (with_new_role code input d)
        (create_role-passed catalogue actor d input e).1

  pub update_role-keeps :
      (key : ℕ) (input : RoleChange)
      → update_role catalogue actor key input d ≡ ok d'
      → d'.assignments ≡ d.assignments
  update_role-keeps key input e =
      let (r, _, _, e₁) = update_role-passed catalogue actor d key input e in
      let changed = record d { roles = modify_role key (changed_role input) d.roles } in
      elim (Option-cases input.permissions) [
        | inl absent ↦ ap (λ x. x.assignments) (ok-injective (rw absent at e₁))
        | inr (cs, given) ↦
            sync_role_permissions-keeps catalogue r.code cs changed
              (change_permissions-passed catalogue actor changed r.code cs (rw given at e₁)).1
      ]

  pub replace_role_permissions-keeps :
      (key : ℕ) (cs : List Text)
      → replace_role_permissions catalogue actor key cs d ≡ ok d'
      → d'.assignments ≡ d.assignments
  replace_role_permissions-keeps key cs e =
      let (r, _, e₁) = replace_role_permissions-passed catalogue actor d key cs e in
      sync_role_permissions-keeps catalogue r.code cs d e₁

  pub grant_role_permissions-keeps :
      (key : ℕ) (cs : List Text)
      → grant_role_permissions catalogue actor key cs d ≡ ok d'
      → d'.assignments ≡ d.assignments
  grant_role_permissions-keeps key cs e =
      let (r, _, e₁) = grant_role_permissions-passed catalogue actor d key cs e in
      sync_role_permissions-keeps catalogue r.code _ d e₁

  pub revoke_role_permissions-keeps :
      (key : ℕ) (cs : List Text)
      → revoke_role_permissions catalogue actor key cs d ≡ ok d'
      → d'.assignments ≡ d.assignments
  revoke_role_permissions-keeps key cs e =
      let (r, e₁) = revoke_role_permissions-passed catalogue actor d key cs e in
      sync_role_permissions-keeps catalogue r.code _ d e₁

  pub duplicate_role-keeps :
      (key : ℕ) (name code : Option Text)
      → duplicate_role catalogue actor key name code d ≡ ok d'
      → d'.assignments ≡ d.assignments
  duplicate_role-keeps key name code e =
      let (input, e₁) = duplicate_role-passed catalogue actor d key name code e in
      create_role-keeps input e₁

pub delete_roles-keeps :
    (k : ℕ) (role : Text) (keys : List ℕ) (d : Directory) {d' : Directory}
    → delete_roles keys d ≡ ok d'
    → has_role k role d'.assignments ≡ true
    → has_role k role d.assignments ≡ true
delete_roles-keeps k role keys d {d'} e has =
    let gone_codes = map (λ r. r.code) (where_rows (λ r. in_keys keys r.id) d.roles) in
    let stays : Assignment → Bool = λ a. not (mem a.role_code gone_codes) in
    let same : d'.assignments ≡ where_rows stays d.assignments =
      ap (λ x. x.assignments) (delete_roles-passed keys d e).1 in
    where_rows-any (role_of k role) stays d.assignments (ap (has_role k role) (sym same) ∙ has)

pub delete_users-keeps :
    (catalogue : Catalogue) (actor : Actor) (k : ℕ) (role : Text) (keys : List ℕ) (d : Directory)
    {d' : Directory}
    → delete_users catalogue actor keys d ≡ ok d'
    → has_role k role d'.assignments ≡ true
    → has_role k role d.assignments ≡ true
delete_users-keeps catalogue actor k role keys d {d'} e has =
    let stays : Assignment → Bool = λ a. not (in_keys (found_keys keys d.users) a.user_id) in
    let same : d'.assignments ≡ where_rows stays d.assignments =
      ap (λ x. x.assignments) (delete_users-passed catalogue actor d keys e).1 in
    where_rows-any (role_of k role) stays d.assignments (ap (has_role k role) (sym same) ∙ has)

pub force_logout_user-keeps :
    (now key : ℕ) (d : Directory) {d' : Directory}
    → force_logout_user now key d ≡ ok d'
    → IsKept d d'
unfolding force_logout_user
force_logout_user-keeps now key d e =
    let (user, _, e₁) = >>=-eq-ok (or_raise (user_by_id key d.users) not_found) _ e in
    rw (ok-injective e₁) (revoke_all_sessions-keeps now key d)

pub set_user_password-keeps :
    (catalogue : Catalogue) (actor : Actor) (policy : PasswordPolicy) (hash_password : Text → Text)
    (now key : ℕ) (password : Text) (d : Directory) {d' : Directory}
    → set_user_password catalogue actor policy hash_password now key password d ≡ ok d'
    → IsKept d d'
unfolding set_user_password
set_user_password-keeps catalogue actor policy hash_password now key password d e =
    let (user, _, e₁) = >>=-eq-ok (or_raise (user_by_id key d.users) not_found) _ e in
    let e₂ =
      >>-eq-ok
        (assert_can_manage_protected_role actor (super_of (user_role_codes key d.assignments))) _
        e₁ in
    let e₃ = >>-eq-ok (raise_if (is_weak policy password) validation_failed) _ e₂ in
    rw (ok-injective e₃) (revoke_all_sessions-keeps now key _)
