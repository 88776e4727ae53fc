-- ===== src/Access/Escalation/Assigned.antt =====
-- A caller hands out no role with a permission that the caller lacks.
use lcs_system.Shared.{ℕ, ◌≡◌, sym, ◌∙◌, ap, true, false, ◌||◌, arith, Text, List}
use lcs_system.Access.{Assignment, Directory, has_role, wildcard}
use lcs_system.Access.Permissions.{Catalogue}
use lcs_system.Access.Guards.{Actor, PasswordPolicy}
use lcs_system.Access.Governed.{
  Step, user_created, user_updated, role_assigned, role_removed, password_set, logout_forced,
  users_deleted, role_created, role_updated, permissions_replaced, permissions_granted,
  permissions_revoked, role_duplicated, roles_deleted, has_grant,
}
use lcs_system.Access.Governed.Rows.{IsTrimmed}
use lcs_system.Access.Escalation.{IsTidy}
use lcs_system.Access.Escalation.Users.{
  is_earned, create_user-is_earned, update_user-is_earned, assign_role-is_earned,
  remove_role-is_earned,
}
use lcs_system.Access.Escalation.Roles.{
  create_role-keeps, update_role-keeps, replace_role_permissions-keeps,
  grant_role_permissions-keeps, revoke_role_permissions-keeps, duplicate_role-keeps,
  delete_roles-keeps, delete_users-keeps, force_logout_user-keeps, set_user_password-keeps,
}

had-is_earned :
    (actor : Actor) (k : ℕ) (role code : Text) (rows : List Assignment)
    → has_role k role rows ≡ true
    → is_earned actor k role code rows ≡ true
had-is_earned actor k role code rows h = ground (arith, h)

kept-is_earned :
    (actor : Actor) (k : ℕ) (role code : Text) {rows rows' : List Assignment}
    → rows' ≡ rows
    → has_role k role rows' ≡ true
    → is_earned actor k role code rows ≡ true
kept-is_earned actor k role code {rows} same h =
    had-is_earned actor k role code rows (ap (has_role k role) (sym same) ∙ h)

module _ (c : Catalogue) (policy : PasswordPolicy) (hash_password : Text → Text) (actor : Actor)
    (not_admin : actor.is_platform_admin ≡ false) (k : ℕ) (role code : Text)
    (trimmed : IsTrimmed code) where
  -- A user whom a call has given a role that has some permission code, no white space around it,
  -- had that role before the call, or its caller has that permission or the wildcard, if the caller
  -- is no platform administrator and no code of a role is stored with white space around it.
  pub Step-has_role :
      {d d' : Directory}
      → Step c policy hash_password actor d d'
      → IsTidy d
      → has_grant role code d.grants ≡ true
      → has_role k role d'.assignments ≡ true
      → (has_role k role d.assignments
          || actor.has_permission code
          || actor.has_permission wildcard)
        ≡ true
  Step-has_role {d} (user_created input e) tidy g h =
      create_user-is_earned c actor k role code not_admin trimmed policy hash_password input d g e h
  Step-has_role {d} (user_updated now key input e) tidy g h =
      update_user-is_earned c actor k role code not_admin trimmed now key input d g e h
  Step-has_role {d} (role_assigned key ref e) tidy g h =
      assign_role-is_earned c actor k role code not_admin trimmed key ref d tidy g e h
  Step-has_role {d} (role_removed key gone e) tidy g h =
      remove_role-is_earned c actor k role code not_admin trimmed key gone d tidy e h
  Step-has_role {d} (password_set now key password e) tidy g h =
      kept-is_earned actor k role code
        (set_user_password-keeps c actor policy hash_password now key password d e).0 h
  Step-has_role {d} (logout_forced now key e) tidy g h =
      kept-is_earned actor k role code (force_logout_user-keeps now key d e).0 h
  Step-has_role {d} (users_deleted keys e) tidy g h =
      had-is_earned actor k role code d.assignments (delete_users-keeps c actor k role keys d e h)
  Step-has_role {d} (role_created input e) tidy g h =
      kept-is_earned actor k role code (create_role-keeps c actor d input e) h
  Step-has_role {d} (role_updated key input e) tidy g h =
      kept-is_earned actor k role code (update_role-keeps c actor d key input e) h
  Step-has_role {d} (permissions_replaced key cs e) tidy g h =
      kept-is_earned actor k role code (replace_role_permissions-keeps c actor d key cs e) h
  Step-has_role {d} (permissions_granted key cs e) tidy g h =
      kept-is_earned actor k role code (grant_role_permissions-keeps c actor d key cs e) h
  Step-has_role {d} (permissions_revoked key cs e) tidy g h =
      kept-is_earned actor k role code (revoke_role_permissions-keeps c actor d key cs e) h
  Step-has_role {d} (role_duplicated key name new_code e) tidy g h =
      kept-is_earned actor k role code (duplicate_role-keeps c actor d key name new_code e) h
  Step-has_role {d} (roles_deleted keys e) tidy g h =
      had-is_earned actor k role code d.assignments (delete_roles-keeps k role keys d e h)
