-- ===== src/Access/Roles/Passed.antt =====
-- What a call on roles has passed when it goes through.
use lcs_system.Shared.{
  ℕ, ◌≡◌, false, ◌&&◌, not, Option, some, List, ◌++◌, map, where_rows, is_empty, is_found, ok,
  or_raise, raise_if, >>=-eq-ok, >>-eq-ok, >>-passed, raise_if-eq-ok, or_raise-eq-ok, ok-injective,
  not_found, access_denied, validation_failed, conflict, ConflictCode, role_in_use, Text, codes,
  strip,
}
use lcs_system.Access.{
  Role, Directory, any, mem, wildcard, role_by_id, role_by_code, role_permission_codes,
  set_role_permissions,
}
use lcs_system.Access.Permissions.{Catalogue}
use lcs_system.Access.Guards.{
  Actor, is_super, assert_can_manage_protected_role, assert_can_grant_permissions,
}
use lcs_system.Access.Accounts.{in_keys, text_or}
use lcs_system.Access.Roles.{
  RoleInput, RoleChange, modify_role, validate_permission_codes, sync_role_permissions,
  stored_codes, is_protected, changed_role, is_deactivation, lacks_wildcard, in_use, new_role_code,
  with_new_role, change_permissions, create_role, update_role, locked_role,
  replace_role_permissions, grant_role_permissions, revoke_role_permissions, duplicate_role,
  delete_roles, deletable, revoked_codes,
}

pub sync_role_permissions-passed :
    (catalogue : Catalogue) (code : Text) (cs : List Text) (d : Directory) {d' : Directory}
    → sync_role_permissions catalogue code cs d ≡ ok d'
    → ((is_protected code d.roles && not (mem wildcard cs)) ≡ false)
      × (d' ≡ record d { grants = set_role_permissions code (stored_codes catalogue cs) d.grants })
unfolding sync_role_permissions
sync_role_permissions-passed catalogue code cs d e =
    let e₁ = >>-eq-ok (validate_permission_codes catalogue cs) _ e in
    let (guard, e₂) =
      raise_if-eq-ok (is_protected code d.roles && not (mem wildcard cs)) access_denied _ e₁ in
    (guard, ok-injective e₂)

module _ (catalogue : Catalogue) (actor : Actor) (d : Directory) {d' : Directory} where
  pub create_role-passed :
      (input : RoleInput)
      → create_role catalogue actor input d ≡ ok d'
      → (assert_can_grant_permissions catalogue actor input.permissions ≡ ok tt)
        × (sync_role_permissions catalogue
              (new_role_code input d.roles)
              input.permissions
              (with_new_role (new_role_code input d.roles) input d)
            ≡ ok d')
  unfolding create_role
  create_role-passed input e =
      let code = new_role_code input d.roles in
      let e₁ = >>-eq-ok (raise_if (is_empty (strip input.name)) validation_failed) _ e in
      let e₂ = >>-eq-ok (assert_can_manage_protected_role actor code) _ e₁ in
      let e₃ =
        >>-eq-ok
          (raise_if (is_found (role_by_code code d.roles)) (conflict ConflictCode.duplicate_role)) _
          e₂ in
      let e₄ = >>-eq-ok (validate_permission_codes catalogue input.permissions) _ e₃ in
      >>-passed (assert_can_grant_permissions catalogue actor input.permissions) _ e₄

  pub change_permissions-passed :
      (code : Text) (cs : List Text)
      → change_permissions catalogue actor code (some cs) d ≡ ok d'
      → (assert_can_grant_permissions catalogue actor cs ≡ ok tt)
        × (sync_role_permissions catalogue code cs d ≡ ok d')
  change_permissions-passed code cs e =
      let e₁ = >>-eq-ok (validate_permission_codes catalogue cs) _ e in
      >>-passed (assert_can_grant_permissions catalogue actor cs) _ e₁

  pub update_role-passed :
      (key : ℕ) (input : RoleChange)
      → update_role catalogue actor key input d ≡ ok d'
      → (r : Role) × (role_by_id key d.roles ≡ some r)
        × ((is_super r.code && is_deactivation input.status) ≡ false)
        × (change_permissions catalogue actor r.code input.permissions
              (record d { roles = modify_role key (changed_role input) d.roles })
            ≡ ok d')
  unfolding update_role
  update_role-passed key input e =
      let (r, found, e₁) = or_raise-eq-ok (role_by_id key d.roles) not_found _ e in
      let e₂ = >>-eq-ok (assert_can_manage_protected_role actor r.code) _ e₁ in
      let (guard, e₃) =
        raise_if-eq-ok (is_super r.code && is_deactivation input.status) access_denied _ e₂ in
      let e₄ =
        >>-eq-ok (raise_if (is_super r.code && lacks_wildcard input.permissions) access_denied) _
          e₃ in
      let e₅ =
        >>-eq-ok (raise_if (is_deactivation input.status && in_use r.code d) (conflict role_in_use))
          _ e₄ in
      (r, found, guard, e₅)

  pub replace_role_permissions-passed :
      (key : ℕ) (cs : List Text)
      → replace_role_permissions catalogue actor key cs d ≡ ok d'
      → (r : Role) × (assert_can_grant_permissions catalogue actor cs ≡ ok tt)
        × (sync_role_permissions catalogue r.code cs d ≡ ok d')
  unfolding replace_role_permissions
  replace_role_permissions-passed key cs e =
      let (r, _, e₁) = >>=-eq-ok (locked_role catalogue actor key d.roles) _ e in
      let e₂ = >>-eq-ok (validate_permission_codes catalogue cs) _ e₁ in
      let (checked, e₃) = >>-passed (assert_can_grant_permissions catalogue actor cs) _ e₂ in
      (r, checked, e₃)

  pub grant_role_permissions-passed :
      (key : ℕ) (cs : List Text)
      → grant_role_permissions catalogue actor key cs d ≡ ok d'
      → (r : Role) × (assert_can_grant_permissions catalogue actor cs ≡ ok tt)
        × (sync_role_permissions catalogue r.code (role_permission_codes r.code d.grants ++ cs) d
            ≡ ok d')
  unfolding grant_role_permissions
  grant_role_permissions-passed key cs e =
      let (r, _, e₁) = >>=-eq-ok (locked_role catalogue actor key d.roles) _ e in
      let e₂ = >>-eq-ok (validate_permission_codes catalogue cs) _ e₁ in
      let (checked, e₃) = >>-passed (assert_can_grant_permissions catalogue actor cs) _ e₂ in
      (r, checked, e₃)

  pub revoke_role_permissions-passed :
      (key : ℕ) (cs : List Text)
      → revoke_role_permissions catalogue actor key cs d ≡ ok d'
      → (r : Role) × (sync_role_permissions catalogue r.code
            (where_rows
              (λ code. not (mem code (revoked_codes catalogue actor cs)))
              (role_permission_codes r.code d.grants))
            d
          ≡ ok d')
  unfolding revoke_role_permissions
  revoke_role_permissions-passed key cs e =
      let (r, _, e₁) = >>=-eq-ok (locked_role catalogue actor key d.roles) _ e in
      (r, >>-eq-ok (raise_if (is_super r.code) access_denied) _ e₁)

  pub duplicate_role-passed :
      (key : ℕ) (name code : Option Text)
      → duplicate_role catalogue actor key name code d ≡ ok d'
      → (input : RoleInput) × (create_role catalogue actor input d ≡ ok d')
  unfolding duplicate_role
  duplicate_role-passed key name code e =
      let (r, _, e₁) = >>=-eq-ok (or_raise (role_by_id key d.roles) not_found) _ e in
      let permissions = role_permission_codes r.code d.grants in
      (
        record {
          name = text_or name (r.name ++ codes " Copy");
          code = code;
          permissions = permissions;
        },
        >>-eq-ok (assert_can_grant_permissions catalogue actor permissions) _ e₁,
      )

pub delete_roles-passed :
    (keys : List ℕ) (d : Directory) {d' : Directory}
    → delete_roles keys d ≡ ok d'
    → (any is_super (map (λ r. r.code) (where_rows (λ r. in_keys keys r.id) d.roles)) ≡ false)
      × (let gone_codes = map (λ r. r.code) (where_rows (λ r. in_keys keys r.id) d.roles) in
          d' ≡ record d {
            roles = where_rows (λ r. not (in_keys keys r.id)) d.roles;
            assignments = where_rows (λ a. not (mem a.role_code gone_codes)) d.assignments;
            grants = where_rows (λ g. not (mem g.role_code gone_codes)) d.grants;
          })
unfolding delete_roles
delete_roles-passed keys d e =
    let gone = where_rows (λ r. in_keys keys r.id) d.roles in
    let gone_codes = map (λ r. r.code) gone in
    let (out, e₁) = raise_if-eq-ok (any is_super gone_codes) access_denied _ e in
    let e₂ = >>-eq-ok (deletable gone) _ e₁ in
    let e₃ =
      >>-eq-ok
        (raise_if (any (λ a. mem a.role_code gone_codes) d.assignments) (conflict role_in_use)) _
        e₂ in
    (out, ok-injective e₃)
