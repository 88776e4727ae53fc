-- ===== src/Access/Governed/Roles.antt =====
-- The calls on roles leave the tables governed.
use lcs_system.Shared.{
  ℕ, ◌+◌, ◌==◌, ◌<◌, ◌≡◌, refl, sym, ◌∙◌, ap, some-eq, Option-cases, true, false, ◌&&◌, not, Option,
  none, some, List, [], ◌∷◌, map, where_rows, is_found, All-imp, ok, ok-injective, Text, strip,
  text_eqb, text_eqb→eq, arith, inl, inr, Bool-cases,
}
use lcs_system.Access.{
  Role, Directory, any, mem, wildcard, is_active, active, role_by_id, role_by_code, role_of,
  super_admin_role, set_role_permissions,
}
use lcs_system.Access.Permissions.{Catalogue}
use lcs_system.Access.Guards.{Actor, is_super}
use lcs_system.Access.Accounts.{in_keys}
use lcs_system.Access.Roles.{
  RoleInput, RoleChange, new_role_code, with_new_role, modify_role, sync_role_permissions,
  stored_codes, is_protected, changed_role, is_deactivation, change_permissions, create_role,
  update_role, replace_role_permissions, grant_role_permissions, revoke_role_permissions,
  duplicate_role, delete_roles,
}
use lcs_system.Access.Roles.Passed.{
  sync_role_permissions-passed, create_role-passed, change_permissions-passed, update_role-passed,
  replace_role_permissions-passed, grant_role_permissions-passed, revoke_role_permissions-passed,
  duplicate_role-passed, delete_roles-passed,
}
use lcs_system.Access.Governed.{IsGoverned, active_role, grant_of, has_grant}
use lcs_system.Access.Governed.Users.{upper_twice}
use lcs_system.Access.Governed.Rows.{
  any-where_rows, has_grant-other, has_grant-given, wildcard-IsTrimmed,
}

active_role-found : (role : Option Role) → active_role role ≡ true → is_found role ≡ true
active_role-found none h = cc
active_role-found (some r) h = refl

-- The wildcard of the super administrators is not lost to another list of codes.
grant_kept :
    (catalogue : Catalogue) (code : Text) (cs : List Text) (d : Directory)
    → IsGoverned d
    → (is_protected code d.roles && not (mem wildcard cs)) ≡ false
    → has_grant super_admin_role wildcard
        (set_role_permissions code (stored_codes catalogue cs) d.grants)
      ≡ true
grant_kept catalogue code cs d h guard = elim (Bool-cases (is_super code)) [
  | inr other ↦
      has_grant-other code super_admin_role wildcard (stored_codes catalogue cs) d.grants other
        h.grant
  | inl same ↦
      let found : is_found (role_by_code code d.roles) ≡ true =
        rw (text_eqb→eq code super_admin_role same)
          (active_role-found (role_by_code super_admin_role d.roles) h.role) in
      let given : mem wildcard cs ≡ true = ground (arith, guard, same, found) in
      rw (text_eqb→eq code super_admin_role same, given)
        (has_grant-given super_admin_role wildcard (wildcard ∷ []) d.grants wildcard-IsTrimmed refl)
]

sync_role_permissions-IsGoverned :
    (catalogue : Catalogue) (code : Text) (cs : List Text) (d : Directory) {d' : Directory}
    → IsGoverned d
    → sync_role_permissions catalogue code cs d ≡ ok d'
    → IsGoverned d'
sync_role_permissions-IsGoverned catalogue code cs d h e =
    let (guard, same) = sync_role_permissions-passed catalogue code cs d e in
    rw same (record {
      governor = h.governor;
      live = h.live;
      assigned = h.assigned;
      role = h.role;
      grant = grant_kept catalogue code cs d h guard;
      fresh = h.fresh;
    })

-- The role that a search by key finds is changed.
role_by_code-modify :
    (key : ℕ) (f : Role → Role) (roles : List Role)
    → ((x : Role) → (f x).code ≡ x.code)
    → ((x : Role)
        → role_by_id key roles ≡ some x
        → is_super x.code ≡ true
        → is_active x.status ≡ true
        → is_active (f x).status ≡ true)
    → active_role (role_by_code super_admin_role roles) ≡ true
    → active_role (role_by_code super_admin_role (modify_role key f roles)) ≡ true
unfolding modify_role
role_by_code-modify key f [] same kept h = cc
role_by_code-modify key f (x ∷ rs) same kept h = elim (Bool-cases (x.id == key)) [
  | inl here ↦ elim (Bool-cases (is_super x.code)) [
    | inl s ↦ rw (here, same x, s) (kept x (rw here refl) s (rw s at h))
    | inr s ↦ rw (here, same x, s) (rw s at h)
  ]
  | inr there ↦ elim (Bool-cases (is_super x.code)) [
    | inl s ↦ rw (there, s) (rw s at h)
    | inr s ↦
        rw (there, s) (role_by_code-modify key f rs same (λ y g. kept y (rw there g)) (rw s at h))
  ]
]

new_role-active :
    (code name : Text) (key : ℕ) (roles : List Role)
    → active_role (role_by_code super_admin_role roles) ≡ true
    → active_role (
        role_by_code super_admin_role
          (record { id = key; code = code; name = name; status = active } ∷ roles))
      ≡ true
new_role-active code name key roles h = elim (Bool-cases (is_super code)) [
  | inl s ↦ rw s refl
  | inr s ↦ rw s h
]

-- A change that is let through leaves the super administrators' role active.
changed_role-active :
    (input : RoleChange) (r : Role)
    → (is_super r.code && is_deactivation input.status) ≡ false
    → is_super r.code ≡ true
    → is_active r.status ≡ true
    → is_active (changed_role input r).status ≡ true
changed_role-active input r guard s a = elim (Option-cases input.status) [
  | inl none_given ↦ rw none_given a
  | inr (status, given) ↦ rw (given, upper_twice status) (ground (arith, rw given at guard, s))
]

found_twice :
    (key : ℕ) (roles : List Role) {x r : Role}
    → role_by_id key roles ≡ some x
    → role_by_id key roles ≡ some r
    → r ≡ x
found_twice key roles g found = some-eq (sym found ∙ g)

same_guard :
    (input : RoleChange) (x r : Role)
    → r ≡ x
    → (is_super r.code && is_deactivation input.status) ≡ false
    → (is_super x.code && is_deactivation input.status) ≡ false
same_guard input x r e guard =
    sym (ap (λ y. is_super y.code && is_deactivation input.status) e) ∙ guard

module _ (catalogue : Catalogue) (actor : Actor) where
  pub create_role-IsGoverned :
      (input : RoleInput) (d : Directory) {d' : Directory}
      → IsGoverned d
      → create_role catalogue actor input d ≡ ok d'
      → IsGoverned d'
  create_role-IsGoverned input d h e =
      let code = new_role_code input d.roles in
      sync_role_permissions-IsGoverned catalogue code input.permissions (with_new_role code input d)
        (record {
          governor = h.governor;
          live = h.live;
          assigned = h.assigned;
          role = new_role-active code (strip input.name) d.next_id d.roles h.role;
          grant = h.grant;
          fresh =
              All-imp (λ u. u.id < d.next_id) (λ u. u.id < d.next_id + 1) d.users
                (λ u b. omega (arith, b)) h.fresh;
        })
        (create_role-passed catalogue actor d input e).1

  change_permissions-IsGoverned :
      (code : Text) (cs : Option (List Text)) (d : Directory) {d' : Directory}
      → IsGoverned d
      → change_permissions catalogue actor code cs d ≡ ok d'
      → IsGoverned d'
  change_permissions-IsGoverned code none d h e = rw (ok-injective e) h
  change_permissions-IsGoverned code (some cs) d h e =
      sync_role_permissions-IsGoverned catalogue code cs d h
        (change_permissions-passed catalogue actor d code cs e).1

  pub update_role-IsGoverned :
      (key : ℕ) (input : RoleChange) (d : Directory) {d' : Directory}
      → IsGoverned d
      → update_role catalogue actor key input d ≡ ok d'
      → IsGoverned d'
  update_role-IsGoverned key input d h e =
      let (r, found, guard, e₁) = update_role-passed catalogue actor d key input e in
      change_permissions-IsGoverned r.code input.permissions
        (record d { roles = modify_role key (changed_role input) d.roles })
        (record {
          governor = h.governor;
          live = h.live;
          assigned = h.assigned;
          role =
              role_by_code-modify key (changed_role input) d.roles (λ x. refl)
                (λ x g.
                  changed_role-active input x
                    (same_guard input x r (found_twice key d.roles g found) guard))
                h.role;
          grant = h.grant;
          fresh = h.fresh;
        })
        e₁

  pub replace_role_permissions-IsGoverned :
      (key : ℕ) (cs : List Text) (d : Directory) {d' : Directory}
      → IsGoverned d
      → replace_role_permissions catalogue actor key cs d ≡ ok d'
      → IsGoverned d'
  replace_role_permissions-IsGoverned key cs d h e =
      let (r, _, e₁) = replace_role_permissions-passed catalogue actor d key cs e in
      sync_role_permissions-IsGoverned catalogue r.code cs d h e₁

  pub grant_role_permissions-IsGoverned :
      (key : ℕ) (cs : List Text) (d : Directory) {d' : Directory}
      → IsGoverned d
      → grant_role_permissions catalogue actor key cs d ≡ ok d'
      → IsGoverned d'
  grant_role_permissions-IsGoverned key cs d h e =
      let (r, _, e₁) = grant_role_permissions-passed catalogue actor d key cs e in
      sync_role_permissions-IsGoverned catalogue r.code _ d h e₁

  pub revoke_role_permissions-IsGoverned :
      (key : ℕ) (cs : List Text) (d : Directory) {d' : Directory}
      → IsGoverned d
      → revoke_role_permissions catalogue actor key cs d ≡ ok d'
      → IsGoverned d'
  revoke_role_permissions-IsGoverned key cs d h e =
      let (r, e₁) = revoke_role_permissions-passed catalogue actor d key cs e in
      sync_role_permissions-IsGoverned catalogue r.code _ d h e₁

  pub duplicate_role-IsGoverned :
      (key : ℕ) (name code : Option Text) (d : Directory) {d' : Directory}
      → IsGoverned d
      → duplicate_role catalogue actor key name code d ≡ ok d'
      → IsGoverned d'
  duplicate_role-IsGoverned key name code d h e =
      let (input, e₁) = duplicate_role-passed catalogue actor d key name code e in
      create_role-IsGoverned input d h e₁

-- The super administrators' role is not among the deleted ones.
role_by_code-where_rows :
    (keys : List ℕ) (roles : List Role)
    → any is_super (map (λ r. r.code) (where_rows (λ r. in_keys keys r.id) roles)) ≡ false
    → active_role (role_by_code super_admin_role roles) ≡ true
    → active_role (role_by_code super_admin_role (where_rows (λ r. not (in_keys keys r.id)) roles))
      ≡ true
role_by_code-where_rows keys [] out h = cc
role_by_code-where_rows keys (r ∷ rs) out h = elim (Bool-cases (in_keys keys r.id)) [
  | inl gone ↦
      let others : (is_super r.code ≡ false)
          × (any is_super (map (λ r. r.code) (where_rows (λ r. in_keys keys r.id) rs)) ≡ false) =
        ground (arith, rw gone at out) in
      rw gone (role_by_code-where_rows keys rs others.1 (rw others.0 at h))
  | inr stays ↦ elim (Bool-cases (is_super r.code)) [
    | inl s ↦ rw (stays, s) (rw s at h)
    | inr s ↦ rw (stays, s) (role_by_code-where_rows keys rs (rw stays at out) (rw s at h))
  ]
]

not_gone :
    (gone : List Text) (t : Text)
    → any is_super gone ≡ false
    → text_eqb t super_admin_role ≡ true
    → not (mem t gone) ≡ true
not_gone gone t out e = rw (text_eqb→eq t super_admin_role e, out) refl

pub delete_roles-IsGoverned :
    (keys : List ℕ) (d : Directory) {d' : Directory}
    → IsGoverned d
    → delete_roles keys d ≡ ok d'
    → IsGoverned d'
delete_roles-IsGoverned keys d h e =
    let gone_codes = map (λ r. r.code) (where_rows (λ r. in_keys keys r.id) d.roles) in
    let (out, same) = delete_roles-passed keys d e in
    rw same (record {
      governor = h.governor;
      live = h.live;
      assigned =
          any-where_rows (role_of h.governor super_admin_role)
            (λ a. not (mem a.role_code gone_codes))
            (λ a r. not_gone gone_codes a.role_code out (ground (arith, r))) d.assignments
            h.assigned;
      role = role_by_code-where_rows keys d.roles out h.role;
      grant =
          any-where_rows (grant_of super_admin_role wildcard)
            (λ g. not (mem g.role_code gone_codes))
            (λ g r. not_gone gone_codes g.role_code out (ground (arith, r))) d.grants h.grant;
      fresh = h.fresh;
    })
