-- ===== src/Access/Escalation.antt =====
-- What a caller may hand out: the roles that the calls on users assign.
pub mod Rows
pub mod Resolved
pub mod Users
pub mod Roles
pub mod Lists
pub mod Expanded
pub mod Granted
pub mod Held
pub mod Assigned
use lcs_system.Shared.{◌≡◌, All, strip}
use lcs_system.Access.{Directory}

-- No code of a role is stored with white space around it.
pub record IsTidy (d : Directory) : Type 0 where
  pub roles : All (λ r. strip r.code ≡ r.code) d.roles
  pub assignments : All (λ a. strip a.role_code ≡ a.role_code) d.assignments

-- A call has left the roles of users and the grants of roles as they were.
abbrev pub IsKept : Directory → Directory → Type 0
IsKept d d' = (d'.assignments ≡ d.assignments) × (d'.grants ≡ d.grants)
