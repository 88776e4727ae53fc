-- ===== src/Access/Tests.antt =====
-- Runs of the calls on users and roles.
use lcs_system.Shared.{
  ℕ, ◌≡◌, refl, arith, true, false, ◌||◌, [], ◌∷◌, List, Outcome, ok, err, validation_failed,
  access_denied, Text, codes, text_eqb,
}
use lcs_system.Auth.{User}
use lcs_system.Access.{
  Role, Directory, has_role, role_permission_codes, mem, super_admin_role, wildcard, active,
}
use lcs_system.Access.Permissions.{Catalogue, covered_codes, resolve_role_codes}
use lcs_system.Access.Guards.{Actor, PasswordPolicy}
use lcs_system.Access.Accounts.{by_code}
use lcs_system.Access.Users.{assign_role, remove_role}
use lcs_system.Access.Roles.{grant_role_permissions, revoke_role_permissions}
use lcs_system.Access.Roles.Codes.{derive_role_code}
use lcs_system.Access.Roles.Codes.Free.{derive_role_code-free}
use lcs_system.Access.Governed.{
  has_grant, IsGoverned, role_assigned, role_removed, permissions_granted, here, then,
}
use lcs_system.Access.Governed.Kept.{Steps-IsGoverned}
use lcs_system.Access.Governed.Rows.{IsTrimmed}
use lcs_system.Access.Escalation.{IsTidy}
use lcs_system.Access.Escalation.Expanded.{IsTidyCatalogue}
use lcs_system.Access.Escalation.Held.{Step-has_grant}
use lcs_system.Access.Escalation.Assigned.{Step-has_role}

abbrev catalogue : Catalogue
catalogue = record {
  page_grants = (codes "orders.view", codes "order.read" ∷ codes "file.read" ∷ []) ∷ [];
  pages = codes "orders.view" ∷ [];
  all_codes =
      codes "orders.view" ∷ codes "order.read" ∷ codes "file.read" ∷ codes "user.manage" ∷ [];
}

-- A page brings its codes, and a code brings a page that grants nothing else.
page_resolved :
    resolve_role_codes catalogue (codes "orders.view" ∷ [])
    ≡ codes "orders.view"
      ∷ codes "order.read"
      ∷ codes "file.read"
      ∷ codes "orders.view"
      ∷ codes "orders.view"
      ∷ []
unfolding resolve_role_codes
page_resolved = refl

code_resolved : resolve_role_codes catalogue (codes "order.read" ∷ []) ≡ codes "order.read" ∷ []
unfolding resolve_role_codes
code_resolved = refl

abbrev user : ℕ → Text → User
user key code = record {
  id = key;
  user_code = code;
  username = code;
  email = code;
  status = active;
  is_system_admin = false;
  token_version = 0;
}

abbrev role : ℕ → Text → Role
role key code = record { id = key; code = code; name = code; status = active }

-- A super administrator and a clerk.
abbrev directory : Directory
directory = record {
  users = user 1 (codes "ROOT") ∷ user 2 (codes "ANN") ∷ [];
  credentials = [];
  sessions = [];
  roles = role 3 super_admin_role ∷ role 4 (codes "CLERK") ∷ [];
  assignments =
      record { user_id = 1; role_code = super_admin_role }
      ∷ record { user_id = 2; role_code = codes "CLERK" }
      ∷ [];
  grants =
      record { role_code = super_admin_role; code = wildcard }
      ∷ record { role_code = codes "CLERK"; code = codes "order.read" }
      ∷ [];
  next_id = 5;
}

abbrev admin : ℕ → Actor
admin key = record { user_id = key; is_platform_admin = true; has_permission = λ _. true }

abbrev clerk : Actor
clerk = record {
  user_id = 2;
  is_platform_admin = false;
  has_permission = λ code. text_eqb code (codes "order.read");
}

abbrev or_directory : Outcome Directory → Directory
or_directory (ok d) = d
or_directory (err _) = directory

unfoldable promoted : Directory
promoted = or_directory (assign_role catalogue (admin 1) 2 (by_code super_admin_role) directory)

is_promoted : assign_role catalogue (admin 1) 2 (by_code super_admin_role) directory ≡ ok promoted
unfolding assign_role lcs_system.Access.Guards.assert_can_manage_protected_role
    lcs_system.Access.Guards.assert_can_touch_super_admin
    lcs_system.Access.Guards.assert_can_assign_role
    lcs_system.Access.Guards.assert_super_admin_remains promoted
is_promoted = refl

unfoldable handed_over : Directory
handed_over = or_directory (remove_role catalogue (admin 2) 1 super_admin_role promoted)

is_handed_over : remove_role catalogue (admin 2) 1 super_admin_role promoted ≡ ok handed_over
unfolding remove_role promoted assign_role lcs_system.Access.Guards.assert_can_manage_protected_role
    lcs_system.Access.Guards.assert_can_touch_super_admin
    lcs_system.Access.Guards.assert_can_assign_role
    lcs_system.Access.Guards.assert_super_admin_remains lcs_system.Access.set_user_roles handed_over
is_handed_over = refl

-- The last super administrator keeps the role, and a clerk may not hand it out.
last_kept : remove_role catalogue (admin 9) 2 super_admin_role handed_over ≡ err validation_failed
unfolding remove_role handed_over promoted assign_role
    lcs_system.Access.Guards.assert_can_manage_protected_role
    lcs_system.Access.Guards.assert_can_touch_super_admin
    lcs_system.Access.Guards.assert_can_assign_role
    lcs_system.Access.Guards.assert_super_admin_remains lcs_system.Access.set_user_roles
last_kept = refl

clerk_refused :
    assign_role catalogue clerk 1 (by_code (codes "CLERK")) directory ≡ err access_denied
unfolding assign_role lcs_system.Access.Guards.assert_can_manage_protected_role
    lcs_system.Access.Guards.assert_can_touch_super_admin
clerk_refused = refl

directory-IsGoverned : IsGoverned directory
directory-IsGoverned = record {
  governor = 1;
  live = refl;
  assigned = refl;
  role = refl;
  grant = refl;
  fresh = (omega arith, (omega arith, tt));
}

abbrev password_policy : PasswordPolicy
password_policy = record { min_length = 8; max_length = 64 }

Steps-IsGoverned_example : IsGoverned handed_over
Steps-IsGoverned_example =
    Steps-IsGoverned catalogue password_policy (λ t. t)
      (then (admin 1) (role_assigned 2 (by_code super_admin_role) is_promoted)
        (then (admin 2) (role_removed 1 super_admin_role is_handed_over) here))
      directory-IsGoverned

abbrev taken_codes : List Text
taken_codes = codes "CLERK_2" ∷ codes "CLERK" ∷ []

numbered : derive_role_code (codes " clerk!") taken_codes ≡ codes "CLERK_3"
unfolding derive_role_code lcs_system.Finance.Sequences.str
numbered = refl

derive_role_code-free_example :
    mem (derive_role_code (codes " clerk!") taken_codes) taken_codes ≡ false
derive_role_code-free_example = derive_role_code-free (codes " clerk!") taken_codes

-- A manager who may read orders gives the clerks' role to a user without one.
abbrev staffed : Directory
staffed = record directory { users = user 5 (codes "BEN") ∷ directory.users }

abbrev manager : Actor
manager = record {
  user_id = 7;
  is_platform_admin = false;
  has_permission = λ code. text_eqb code (codes "order.read");
}

unfoldable hired : Directory
hired = or_directory (assign_role catalogue manager 5 (by_code (codes "CLERK")) staffed)

is_hired : assign_role catalogue manager 5 (by_code (codes "CLERK")) staffed ≡ ok hired
unfolding hired assign_role lcs_system.Access.Guards.assert_can_manage_protected_role
    lcs_system.Access.Guards.assert_can_touch_super_admin
    lcs_system.Access.Guards.assert_can_assign_role
    lcs_system.Access.Guards.assert_can_grant_permissions resolve_role_codes
    lcs_system.Access.Guards.assert_super_admin_remains
is_hired = refl

has_clerk_role : has_role 5 (codes "CLERK") hired.assignments ≡ true
unfolding hired assign_role lcs_system.Access.Guards.assert_can_manage_protected_role
    lcs_system.Access.Guards.assert_can_touch_super_admin
    lcs_system.Access.Guards.assert_can_assign_role
    lcs_system.Access.Guards.assert_can_grant_permissions resolve_role_codes
    lcs_system.Access.Guards.assert_super_admin_remains lcs_system.Access.set_user_roles
has_clerk_role = refl

order_read-IsTrimmed : IsTrimmed (codes "order.read")
unfolding IsTrimmed
order_read-IsTrimmed = (refl, refl)

staffed-IsTidy : IsTidy staffed
staffed-IsTidy = record { roles = (refl, (refl, tt)); assignments = (refl, (refl, tt)) }

Step-has_role_example :
    (has_role 5 (codes "CLERK") staffed.assignments
      || manager.has_permission (codes "order.read")
      || manager.has_permission wildcard)
    ≡ true
Step-has_role_example =
    Step-has_role catalogue password_policy (λ t. t) manager refl 5 (codes "CLERK")
      (codes "order.read") order_read-IsTrimmed (role_assigned 5 (by_code (codes "CLERK")) is_hired)
      staffed-IsTidy refl has_clerk_role

-- A clerk's page is kept, and brings back the code that is taken away.
abbrev paged : Directory
paged = record directory {
  grants =
      record { role_code = codes "CLERK"; code = codes "orders.view" }
      ∷ record { role_code = codes "CLERK"; code = codes "order.read" }
      ∷ record { role_code = codes "CLERK"; code = codes "file.read" }
      ∷ [];
}

revoked_in_vain :
    has_grant
      (codes "CLERK")
      (codes "order.read")
      (or_directory
        (revoke_role_permissions catalogue (admin 1) 4 (codes "order.read" ∷ []) paged)).grants
    ≡ true
unfolding revoke_role_permissions lcs_system.Access.Roles.locked_role
    lcs_system.Access.Guards.assert_can_manage_protected_role
    lcs_system.Access.Roles.sync_role_permissions lcs_system.Access.Roles.validate_permission_codes
    lcs_system.Access.Permissions.compile_role_permissions resolve_role_codes
    lcs_system.Access.set_role_permissions
revoked_in_vain = refl

-- Somebody who may manage users lets the clerks do so too.
abbrev delegate : Actor
delegate = record {
  user_id = 7;
  is_platform_admin = false;
  has_permission = λ code. text_eqb code (codes "user.manage");
}

unfoldable entrusted : Directory
entrusted =
    or_directory (grant_role_permissions catalogue delegate 4 (codes "user.manage" ∷ []) staffed)

is_entrusted :
    grant_role_permissions catalogue delegate 4 (codes "user.manage" ∷ []) staffed ≡ ok entrusted
unfolding grant_role_permissions lcs_system.Access.Roles.locked_role
    lcs_system.Access.Guards.assert_can_manage_protected_role
    lcs_system.Access.Guards.assert_can_grant_permissions
    lcs_system.Access.Roles.sync_role_permissions lcs_system.Access.Roles.validate_permission_codes
    lcs_system.Access.Permissions.compile_role_permissions resolve_role_codes
    lcs_system.Access.set_role_permissions entrusted
is_entrusted = refl

has_user_manage : has_grant (codes "CLERK") (codes "user.manage") entrusted.grants ≡ true
unfolding grant_role_permissions lcs_system.Access.Roles.locked_role
    lcs_system.Access.Guards.assert_can_manage_protected_role
    lcs_system.Access.Guards.assert_can_grant_permissions
    lcs_system.Access.Roles.sync_role_permissions lcs_system.Access.Roles.validate_permission_codes
    lcs_system.Access.Permissions.compile_role_permissions resolve_role_codes
    lcs_system.Access.set_role_permissions entrusted
has_user_manage = refl

catalogue-IsTidyCatalogue : IsTidyCatalogue catalogue
unfolding IsTidyCatalogue
catalogue-IsTidyCatalogue = ((refl, (refl, (refl, tt))), tt)

Step-has_grant_example :
    (mem
        (codes "user.manage")
        (covered_codes catalogue (role_permission_codes (codes "CLERK") staffed.grants))
      || delegate.has_permission (codes "user.manage"))
    ≡ true
Step-has_grant_example =
    Step-has_grant catalogue delegate (codes "CLERK") (codes "user.manage") refl
      catalogue-IsTidyCatalogue refl refl password_policy (λ t. t)
      (permissions_granted 4 (codes "user.manage" ∷ []) is_entrusted) (refl, (refl, tt))
      has_user_manage
