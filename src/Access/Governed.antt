-- ===== src/Access/Governed.antt =====
-- The calls of backend/app/modules/auth/service.py on users and roles as steps on their tables, and
-- what it is for the tables to be governed.
pub mod Rows
pub mod Users
pub mod Roles
pub mod Deletion
pub mod Kept
use lcs_system.Shared.{
  ℕ, ◌<◌, ◌≡◌, Bool, true, false, ◌&&◌, Option, none, some, List, All, Outcome, ok, Text, text_eqb,
}
use lcs_system.Auth.{User}
use lcs_system.Access.{
  Role, Grant, Directory, any, super_admin_role, wildcard, is_active, active_user, role_by_code,
  has_role,
}
use lcs_system.Access.Permissions.{Catalogue}
use lcs_system.Access.Guards.{Actor, PasswordPolicy}
use lcs_system.Access.Accounts.{UserInput, UserChange, RoleRef}
use lcs_system.Access.Users.{
  create_user, update_user, assign_role, remove_role, set_user_password, force_logout_user,
  delete_users,
}
use lcs_system.Access.Roles.{
  RoleInput, RoleChange, create_role, update_role, replace_role_permissions, grant_role_permissions,
  revoke_role_permissions, duplicate_role, delete_roles,
}

abbrev pub active_role : Option Role → Bool
active_role none = false
active_role (some r) = is_active r.status

abbrev pub grant_of : Text → Text → Grant → Bool
grant_of role code g = text_eqb g.role_code role && text_eqb g.code code

abbrev pub has_grant : Text → Text → List Grant → Bool
has_grant role code = any (grant_of role code)

-- Somebody who may sign in is a super administrator, and that role is active and grants everything.
pub record IsGoverned (d : Directory) : Type 0 where
  pub governor : ℕ
  pub live : active_user governor d.users ≡ true
  pub assigned : has_role governor super_admin_role d.assignments ≡ true
  pub role : active_role (role_by_code super_admin_role d.roles) ≡ true
  pub grant : has_grant super_admin_role wildcard d.grants ≡ true
  pub fresh : All (λ u. u.id < d.next_id) d.users

module _ (catalogue : Catalogue) (policy : PasswordPolicy) (hash_password : Text → Text) where
  -- A call that goes through, by whom and when.
  pub data Step (actor : Actor) : Directory → Directory → Type 0 where
    user_created :
        {d d' : Directory} (input : UserInput)
        → create_user catalogue actor policy hash_password input d ≡ ok d'
        → Step actor d d'
    user_updated :
        {d d' : Directory} (now key : ℕ) (input : UserChange)
        → update_user catalogue actor now key input d ≡ ok d'
        → Step actor d d'
    role_assigned :
        {d d' : Directory} (key : ℕ) (ref : RoleRef)
        → assign_role catalogue actor key ref d ≡ ok d'
        → Step actor d d'
    role_removed :
        {d d' : Directory} (key : ℕ) (code : Text)
        → remove_role catalogue actor key code d ≡ ok d'
        → Step actor d d'
    password_set :
        {d d' : Directory} (now key : ℕ) (password : Text)
        → set_user_password catalogue actor policy hash_password now key password d ≡ ok d'
        → Step actor d d'
    logout_forced :
        {d d' : Directory} (now key : ℕ) → force_logout_user now key d ≡ ok d' → Step actor d d'
    users_deleted :
        {d d' : Directory} (keys : List ℕ)
        → delete_users catalogue actor keys d ≡ ok d'
        → Step actor d d'
    role_created :
        {d d' : Directory} (input : RoleInput)
        → create_role catalogue actor input d ≡ ok d'
        → Step actor d d'
    role_updated :
        {d d' : Directory} (key : ℕ) (input : RoleChange)
        → update_role catalogue actor key input d ≡ ok d'
        → Step actor d d'
    permissions_replaced :
        {d d' : Directory} (key : ℕ) (codes : List Text)
        → replace_role_permissions catalogue actor key codes d ≡ ok d'
        → Step actor d d'
    permissions_granted :
        {d d' : Directory} (key : ℕ) (codes : List Text)
        → grant_role_permissions catalogue actor key codes d ≡ ok d'
        → Step actor d d'
    permissions_revoked :
        {d d' : Directory} (key : ℕ) (codes : List Text)
        → revoke_role_permissions catalogue actor key codes d ≡ ok d'
        → Step actor d d'
    role_duplicated :
        {d d' : Directory} (key : ℕ) (name code : Option Text)
        → duplicate_role catalogue actor key name code d ≡ ok d'
        → Step actor d d'
    roles_deleted :
        {d d' : Directory} (keys : List ℕ) → delete_roles keys d ≡ ok d' → Step actor d d'

  -- Any number of calls, each by anybody.
  pub data Steps : Directory → Directory → Type 0 where
    here : {d : Directory} → Steps d d
    then : {a b c : Directory} (actor : Actor) → Step actor a b → Steps b c → Steps a c
