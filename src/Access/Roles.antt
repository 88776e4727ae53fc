-- ===== src/Access/Roles.antt =====
-- The calls on roles of backend/app/modules/auth/service.py: `create_role`, `update_role`,
-- `replace_role_permissions`, `grant_role_permissions`, `revoke_role_permissions`, `delete_roles`,
-- `duplicate_role`. The order in which codes are stored is left out.
pub mod Codes
pub mod Passed
use lcs_system.Shared.{
  ℕ, ◌+◌, ◌==◌, if◌then◌else◌, Bool, true, false, ◌&&◌, ◌||◌, not, Option, none, some, or_else,
  List, [], ◌∷◌, ◌++◌, map, first_row, where_rows, is_empty, is_found, Outcome, ok, err, ◌>>=◌,
  ◌>>◌, raise_if, or_raise, access_denied, not_found, validation_failed, conflict, ConflictCode,
  role_in_use, Text, codes, strip, upper, text_eqb,
}
use lcs_system.Access.{
  Role, Assignment, Grant, Directory, any, mem, wildcard, active, is_active, active_user,
  role_by_id, role_by_code, users_with_role, role_permission_codes, set_role_permissions,
  given_codes,
}
use lcs_system.Access.Permissions.{
  Catalogue, resolve_role_codes, compile_role_permissions, flat_map,
}
use lcs_system.Access.Guards.{
  Actor, is_super, assert_can_manage_protected_role, assert_can_grant_permissions, require_inactive,
}
use lcs_system.Access.Accounts.{in_keys, text_or}
use lcs_system.Access.Roles.Codes.{derive_role_code}

-- A payload whose name is stripped.
pub record RoleInput : Type 0 where
  pub name : Text
  pub code : Option Text
  pub permissions : List Text

pub record RoleChange : Type 0 where
  pub name : Option Text
  pub status : Option Text
  pub permissions : Option (List Text)

-- Attributes of the row that a search by key finds are assigned.
unfoldable pub modify_role : ℕ → (Role → Role) → List Role → List Role
modify_role key f [] = []
modify_role key f (r ∷ rs) = if r.id == key then f r ∷ rs else r ∷ modify_role key f rs

abbrev unknown_code : List Text → Text → Bool
unknown_code all_codes code = not (mem code all_codes) && not (text_eqb code wildcard)

unfoldable pub validate_permission_codes : Catalogue → List Text → Outcome (Unit {0})
validate_permission_codes catalogue cs =
    raise_if (any (unknown_code catalogue.all_codes) cs) validation_failed

-- The resolved codes, but the wildcard alone where it is given as it stands.
abbrev pub stored_codes : Catalogue → List Text → List Text
stored_codes catalogue cs =
    if mem wildcard cs then wildcard ∷ [] else resolve_role_codes catalogue cs

abbrev pub is_protected : Text → List Role → Bool
is_protected code roles = is_found (role_by_code code roles) && is_super code

unfoldable pub sync_role_permissions : Catalogue → Text → List Text → Directory → Outcome Directory
unfolding validate_permission_codes
sync_role_permissions catalogue code cs d = do
  validate_permission_codes catalogue cs
  raise_if (is_protected code d.roles && not (mem wildcard cs)) access_denied
  ok (record d { grants = set_role_permissions code (stored_codes catalogue cs) d.grants })

abbrev pub lacks_wildcard : Option (List Text) → Bool
lacks_wildcard none = false
lacks_wildcard (some cs) = not (mem wildcard cs)

abbrev pub is_deactivation : Option Text → Bool
is_deactivation none = false
is_deactivation (some status) = not (is_active status)

abbrev pub in_use : Text → Directory → Bool
in_use code d = any (λ k. active_user k d.users) (users_with_role code d.assignments)

abbrev pub changed_role : RoleChange → Role → Role
changed_role input r = record r {
  name = or_else input.name r.name;
  status = elim input.status [ none ↦ r.status | some status ↦ upper status ];
}

abbrev pub deletable : List Role → Outcome (Unit {0})
deletable [] = ok tt
deletable (r ∷ rs) = require_inactive r.status >> deletable rs

abbrev pub new_role_code : RoleInput → List Role → Text
new_role_code input roles =
    let given = strip (or_else input.code []) in
    let existing = map (λ r. r.code) roles in
    upper (if is_empty given then derive_role_code (strip input.name) existing else given)

abbrev pub with_new_role : Text → RoleInput → Directory → Directory
with_new_role code input d = record d {
  roles =
      record { id = d.next_id; code = code; name = strip input.name; status = active } ∷ d.roles;
  next_id = d.next_id + 1;
}

module _ (catalogue : Catalogue) (actor : Actor) where
  unfoldable pub create_role : RoleInput → Directory → Outcome Directory
  create_role input d = do
    raise_if (is_empty (strip input.name)) validation_failed
    let code = new_role_code input d.roles
    assert_can_manage_protected_role actor code
    raise_if (is_found (role_by_code code d.roles)) (conflict ConflictCode.duplicate_role)
    validate_permission_codes catalogue input.permissions
    assert_can_grant_permissions catalogue actor input.permissions
    sync_role_permissions catalogue code input.permissions (with_new_role code input d)

  abbrev pub change_permissions : Text → Option (List Text) → Directory → Outcome Directory
  change_permissions code none d = ok d
  change_permissions code (some cs) d = do
    validate_permission_codes catalogue cs
    assert_can_grant_permissions catalogue actor cs
    sync_role_permissions catalogue code cs d

  unfoldable pub update_role : ℕ → RoleChange → Directory → Outcome Directory
  update_role key input d = do
    role ← or_raise (role_by_id key d.roles) not_found
    assert_can_manage_protected_role actor role.code
    raise_if (is_super role.code && is_deactivation input.status) access_denied
    raise_if (is_super role.code && lacks_wildcard input.permissions) access_denied
    raise_if (is_deactivation input.status && in_use role.code d) (conflict role_in_use)
    change_permissions role.code input.permissions
        (record d { roles = modify_role key (changed_role input) d.roles })

  -- `_locked_role`
  unfoldable pub locked_role : ℕ → List Role → Outcome Role
  locked_role key roles = do
    role ← or_raise (role_by_id key roles) not_found
    assert_can_manage_protected_role actor role.code
    ok role

  unfoldable pub replace_role_permissions : ℕ → List Text → Directory → Outcome Directory
  unfolding locked_role
  replace_role_permissions key cs d = do
    role ← locked_role key d.roles
    validate_permission_codes catalogue cs
    assert_can_grant_permissions catalogue actor cs
    sync_role_permissions catalogue role.code cs d

  unfoldable pub grant_role_permissions : ℕ → List Text → Directory → Outcome Directory
  unfolding locked_role
  grant_role_permissions key cs d = do
    role ← locked_role key d.roles
    validate_permission_codes catalogue cs
    assert_can_grant_permissions catalogue actor cs
    sync_role_permissions catalogue role.code (role_permission_codes role.code d.grants ++ cs) d

  abbrev pub revoked_codes : List Text → List Text
  revoked_codes =
      flat_map (λ code. strip code ∷ compile_role_permissions catalogue (strip code ∷ []))

  unfoldable pub revoke_role_permissions : ℕ → List Text → Directory → Outcome Directory
  unfolding locked_role
  revoke_role_permissions key cs d = do
    role ← locked_role key d.roles
    raise_if (is_super role.code) access_denied
    let remaining =
        where_rows (λ code. not (mem code (revoked_codes cs)))
          (role_permission_codes role.code d.grants)
    sync_role_permissions catalogue role.code remaining d

  unfoldable pub duplicate_role : ℕ → Option Text → Option Text → Directory → Outcome Directory
  unfolding create_role
  duplicate_role key name code d = do
    source ← or_raise (role_by_id key d.roles) not_found
    let permissions = role_permission_codes source.code d.grants
    assert_can_grant_permissions catalogue actor permissions
    create_role
        (record {
          name = text_or name (source.name ++ codes " Copy");
          code = code;
          permissions = permissions;
        })
        d

unfoldable pub delete_roles : List ℕ → Directory → Outcome Directory
delete_roles keys d = do
  let gone = where_rows (λ r. in_keys keys r.id) d.roles
  let gone_codes = map (λ r. r.code) gone
  raise_if (any is_super gone_codes) access_denied
  deletable gone
  raise_if (any (λ a. mem a.role_code gone_codes) d.assignments) (conflict role_in_use)
  ok (record d {
    roles = where_rows (λ r. not (in_keys keys r.id)) d.roles;
    assignments = where_rows (λ a. not (mem a.role_code gone_codes)) d.assignments;
    grants = where_rows (λ g. not (mem g.role_code gone_codes)) d.grants;
  })
