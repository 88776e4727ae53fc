-- ===== src/Access/Governed/Kept.antt =====
-- No sequence of calls on users and roles leaves the tables without a super administrator.
use lcs_system.Shared.{Text}
use lcs_system.Access.{Directory}
use lcs_system.Access.Permissions.{Catalogue}
use lcs_system.Access.Guards.{Actor, PasswordPolicy}
use lcs_system.Access.Governed.{
  IsGoverned, Step, user_created, user_updated, role_assigned, role_removed, password_set,
  logout_forced, users_deleted, role_created, role_updated, permissions_replaced,
  permissions_granted, permissions_revoked, role_duplicated, roles_deleted, Steps, here, then,
}
use lcs_system.Access.Governed.Users.{
  create_user-IsGoverned, update_user-IsGoverned, assign_role-IsGoverned, remove_role-IsGoverned,
}
use lcs_system.Access.Governed.Deletion.{
  delete_users-IsGoverned, force_logout_user-IsGoverned, set_user_password-IsGoverned,
}
use lcs_system.Access.Governed.Roles.{
  create_role-IsGoverned, update_role-IsGoverned, replace_role_permissions-IsGoverned,
  grant_role_permissions-IsGoverned, revoke_role_permissions-IsGoverned, duplicate_role-IsGoverned,
  delete_roles-IsGoverned,
}

module _ (c : Catalogue) (policy : PasswordPolicy) (hash_password : Text → Text) where
  Step-IsGoverned :
      (actor : Actor) {d d' : Directory}
      → Step c policy hash_password actor d d'
      → IsGoverned d
      → IsGoverned d'
  Step-IsGoverned actor {d} (user_created input e) h =
      create_user-IsGoverned c actor policy hash_password input d h e
  Step-IsGoverned actor {d} (user_updated now key input e) h =
      update_user-IsGoverned c actor now key input d h e
  Step-IsGoverned actor {d} (role_assigned key ref e) h =
      assign_role-IsGoverned c actor key ref d h e
  Step-IsGoverned actor {d} (role_removed key code e) h =
      remove_role-IsGoverned c actor key code d h e
  Step-IsGoverned actor {d} (password_set now key password e) h =
      set_user_password-IsGoverned c actor policy hash_password now key password d h e
  Step-IsGoverned actor {d} (logout_forced now key e) h = force_logout_user-IsGoverned now key d h e
  Step-IsGoverned actor {d} (users_deleted keys e) h = delete_users-IsGoverned c actor keys d h e
  Step-IsGoverned actor {d} (role_created input e) h = create_role-IsGoverned c actor input d h e
  Step-IsGoverned actor {d} (role_updated key input e) h =
      update_role-IsGoverned c actor key input d h e
  Step-IsGoverned actor {d} (permissions_replaced key cs e) h =
      replace_role_permissions-IsGoverned c actor key cs d h e
  Step-IsGoverned actor {d} (permissions_granted key cs e) h =
      grant_role_permissions-IsGoverned c actor key cs d h e
  Step-IsGoverned actor {d} (permissions_revoked key cs e) h =
      revoke_role_permissions-IsGoverned c actor key cs d h e
  Step-IsGoverned actor {d} (role_duplicated key name code e) h =
      duplicate_role-IsGoverned c actor key name code d h e
  Step-IsGoverned actor {d} (roles_deleted keys e) h = delete_roles-IsGoverned keys d h e

  -- After any sequence of calls on users and roles, by any callers, there is an active user who is
  -- assigned the super administrators' role, that role is active and it has the wildcard grant, if
  -- that was so before.
  pub Steps-IsGoverned :
      {d d' : Directory} → Steps c policy hash_password d d' → IsGoverned d → IsGoverned d'
  Steps-IsGoverned here h = h
  Steps-IsGoverned (then actor s rest) h = Steps-IsGoverned rest (Step-IsGoverned actor s h)
