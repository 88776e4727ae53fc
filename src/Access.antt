-- ===== src/Access.antt =====
-- Users, roles and what they hold: backend/app/core/authorization/service.py, which keeps the
-- assignments of users and the grants of roles as rows of `casbin_rule`, and the tables of
-- backend/app/modules/auth/models.py. A permission code is kept whole, where a row keeps its two
-- halves; `split_code` and `join_code` lead from one to the other.
pub mod Permissions
pub mod Guards
pub mod Accounts
pub mod Users
pub mod Roles
pub mod Governed
pub mod Escalation
pub mod Tests
use lcs_system.Shared.{
  ℕ, ◌==◌, if◌then◌else◌, Bool, true, false, ◌&&◌, ◌||◌, not, Option, none, some, List, [], ◌∷◌,
  ◌++◌, map, first_row, where_rows, is_empty, Text, codes, upper, strip, text_eqb,
}
use lcs_system.Auth.{User, UserCredential}
use lcs_system.Auth.Sessions.{UserSession}

pub record Role : Type 0 where
  pub id : ℕ
  pub code : Text
  pub name : Text
  pub status : Text

-- A row `g, user:<id>, role:<code>`.
pub record Assignment : Type 0 where
  pub user_id : ℕ
  pub role_code : Text

-- A row `p, role:<code>, <object>, <action>`.
pub record Grant : Type 0 where
  pub role_code : Text
  pub code : Text

-- The tables, and a key above every key in use.
pub record Directory : Type 0 where
  pub users : List User
  pub credentials : List UserCredential
  pub sessions : List UserSession
  pub roles : List Role
  pub assignments : List Assignment
  pub grants : List Grant
  pub next_id : ℕ

abbrev pub any {ℓ} : {A : Type ℓ} → (A → Bool) → List A → Bool
any p [] = false
any p (x ∷ xs) = p x || any p xs

-- `value in values`
abbrev pub mem : Text → List Text → Bool
mem t = any (λ s. text_eqb s t)

abbrev pub super_admin_role : Text
super_admin_role = codes "SUPER_ADMIN"

abbrev pub wildcard : Text
wildcard = codes "*"

abbrev pub active : Text
active = codes "ACTIVE"

-- `str(status).upper() == "ACTIVE"`
abbrev pub is_active : Text → Bool
is_active status = text_eqb (upper status) active

abbrev pub user_by_id : ℕ → List User → Option User
user_by_id key = first_row (λ u. u.id == key)

abbrev pub active_member : Option User → Bool
active_member none = false
active_member (some u) = is_active u.status

abbrev pub active_user : ℕ → List User → Bool
active_user key users = active_member (user_by_id key users)

abbrev pub role_by_id : ℕ → List Role → Option Role
role_by_id key = first_row (λ r. r.id == key)

abbrev pub role_by_code : Text → List Role → Option Role
role_by_code code = first_row (λ r. text_eqb r.code code)

abbrev pub role_of : ℕ → Text → Assignment → Bool
role_of key code a = a.user_id == key && text_eqb a.role_code code

abbrev pub has_role : ℕ → Text → List Assignment → Bool
has_role key code = any (role_of key code)

abbrev pub user_role_codes : ℕ → List Assignment → List Text
user_role_codes key rows = map (λ a. a.role_code) (where_rows (λ a. a.user_id == key) rows)

abbrev pub users_with_role : Text → List Assignment → List ℕ
users_with_role code rows = map (λ a. a.user_id) (where_rows (λ a. text_eqb a.role_code code) rows)

abbrev pub role_permission_codes : Text → List Grant → List Text
role_permission_codes role rows =
    map (λ g. g.code) (where_rows (λ g. text_eqb g.role_code role) rows)

-- The codes of a payload that are not blank, stripped.
abbrev pub given_codes : List Text → List Text
given_codes [] = []
given_codes (c ∷ cs) =
    let rest = given_codes cs in if is_empty (strip c) then rest else strip c ∷ rest

-- `dict.fromkeys(values)`
abbrev pub distinct : List Text → List Text
distinct [] = []
distinct (c ∷ cs) = c ∷ where_rows (λ d. not (text_eqb d c)) (distinct cs)

unfoldable pub set_user_roles : ℕ → List Text → List Assignment → List Assignment
set_user_roles key roles rows =
    map (λ code. record { user_id = key; role_code = code }) (distinct (given_codes roles))
    ++ where_rows (λ a. not (a.user_id == key)) rows

abbrev pub delete_user_policies : ℕ → List Assignment → List Assignment
delete_user_policies key = where_rows (λ a. not (a.user_id == key))

unfoldable pub set_role_permissions : Text → List Text → List Grant → List Grant
set_role_permissions role cs rows =
    map (λ code. record { role_code = role; code = code }) (distinct (given_codes cs))
    ++ where_rows (λ g. not (text_eqb g.role_code role)) rows
