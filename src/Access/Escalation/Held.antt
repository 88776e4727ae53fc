-- ===== src/Access/Escalation/Held.antt =====
-- A caller grants a role no permission that the caller lacks.
use lcs_system.Shared.{
  ℕ, ◌≡◌, refl, sym, ◌∙◌, ap, Bool, true, false, ◌||◌, not, Option, none, some, Option-cases, List,
  ◌++◌, map, where_rows, All, All-where_rows, ok, ok-injective, Text, strip, text_eqb, arith, inl,
  inr, Bool-cases,
}
use lcs_system.Access.{Grant, Directory, mem, wildcard, role_permission_codes, user_role_codes}
use lcs_system.Access.Permissions.{Catalogue, covered_codes, resolve_role_codes}
use lcs_system.Access.Guards.{
  Actor, PasswordPolicy, assert_can_grant_permissions, requested_role_codes,
}
use lcs_system.Access.Accounts.{given_code, in_keys, UserChange, RoleRef}
use lcs_system.Access.Users.{change_roles, update_user, assign_role}
use lcs_system.Access.Users.Passed.{
  create_user-passed, change_roles-absent, change_roles-passed, update_user-passed,
  assign_role-passed, remove_role-passed, delete_users-passed,
}
use lcs_system.Access.Roles.{
  RoleInput, sync_role_permissions, new_role_code, with_new_role, modify_role, changed_role,
  create_role, revoked_codes,
}
use lcs_system.Access.Roles.Passed.{
  sync_role_permissions-passed, create_role-passed, change_permissions-passed, update_role-passed,
  replace_role_permissions-passed, grant_role_permissions-passed, revoke_role_permissions-passed,
  duplicate_role-passed, delete_roles-passed,
}
use lcs_system.Access.Governed.{
  Step, user_created, user_updated, role_assigned, role_removed, password_set, logout_forced,
  users_deleted, role_created, role_updated, permissions_replaced, permissions_granted,
  permissions_revoked, role_duplicated, roles_deleted, grant_of, has_grant,
}
use lcs_system.Access.Governed.Rows.{any-append_left}
use lcs_system.Access.Escalation.Rows.{where_rows-any}
use lcs_system.Access.Escalation.Resolved.{
  mem-role_permission_codes, assert_can_grant_permissions-holds, where_rows-given,
}
use lcs_system.Access.Escalation.Expanded.{IsTidyCatalogue, is_key}
use lcs_system.Access.Escalation.Granted.{
  role_permission_codes-All, resolved_part, resolved_together, stored-has_grant,
}
use lcs_system.Access.Escalation.Users.{with_code-keeps, change_user_status-keeps}
use lcs_system.Access.Escalation.Roles.{force_logout_user-keeps, set_user_password-keeps}

change_roles-grants :
    (c : Catalogue) (actor : Actor) (key : ℕ) (requested : Option (List Text)) (d : Directory)
    {d' : Directory}
    → change_roles c actor key requested d ≡ ok d'
    → d'.grants ≡ d.grants
change_roles-grants c actor key none d e = ap (λ x. x.grants) (change_roles-absent c actor key d e)
change_roles-grants c actor key (some requested) d e =
    elim (change_roles-passed c actor d key requested e) [
      | inl same ↦ ap (λ x. x.grants) same
      | inr (_, _, same) ↦ ap (λ x. x.grants) same
    ]

update_user-grants :
    (c : Catalogue) (actor : Actor) (now key : ℕ) (input : UserChange) (d : Directory)
    {d' : Directory}
    → update_user c actor now key input d ≡ ok d'
    → d'.grants ≡ d.grants
update_user-grants c actor now key input d e =
    let (coded, changed, w, r, s) = update_user-passed c actor d now key input e in
    let current = user_role_codes key d.assignments in
    (change_user_status-keeps c actor now key current input.status changed s).1
    ∙ (change_roles-grants c actor key (requested_role_codes input.role_code) coded r
        ∙ (with_code-keeps key (given_code input.user_code) d w).1)

assign_role-grants :
    (c : Catalogue) (actor : Actor) (key : ℕ) (ref : RoleRef) (d : Directory) {d' : Directory}
    → assign_role c actor key ref d ≡ ok d'
    → d'.grants ≡ d.grants
assign_role-grants c actor key ref d e = elim (assign_role-passed c actor d key ref e) [
  | inl same ↦ ap (λ x. x.grants) same
  | inr (_, _, _, _, same) ↦ ap (λ x. x.grants) same
]

-- A code that follows from the codes of a role, or that the caller has.
abbrev is_held : Catalogue → Actor → Text → Text → List Grant → Bool
is_held c actor role code rows =
    mem code (covered_codes c (role_permission_codes role rows)) || actor.has_permission code

module _ (c : Catalogue) (actor : Actor) (role code : Text) where
  had-is_held :
      (rows : List Grant) → has_grant role code rows ≡ true → is_held c actor role code rows ≡ true
  had-is_held rows h =
      let given = mem-role_permission_codes role code rows ∙ h in
      rw (any-append_left (λ s. text_eqb s code) (role_permission_codes role rows) _ given) refl

  kept-is_held :
      {rows rows' : List Grant}
      → rows' ≡ rows
      → has_grant role code rows' ≡ true
      → is_held c actor role code rows ≡ true
  kept-is_held {rows} same h = had-is_held rows (ap (has_grant role code) (sym same) ∙ h)

  module _ (not_admin : actor.is_platform_admin ≡ false) (tidy : IsTidyCatalogue c)
      (plain : is_key c code ≡ false) (named : text_eqb wildcard code ≡ false) where
    -- The codes of a role are stored.
    synced-is_held :
        (r : Text) (cs : List Text) (d : Directory) {d' : Directory}
        → sync_role_permissions c r cs d ≡ ok d'
        → (r ≡ role
            → mem code (resolve_role_codes c cs) ≡ true
            → is_held c actor role code d.grants ≡ true)
        → has_grant role code d'.grants ≡ true
        → is_held c actor role code d.grants ≡ true
    synced-is_held r cs d e new h =
        let (_, same) = sync_role_permissions-passed c r cs d e in
        elim (stored-has_grant c code plain named tidy role r cs d.grants
          (ap (λ x. has_grant role code x.grants) (sym same) ∙ h)) [
            | inl had ↦ had-is_held d.grants had
            | inr (owner, resolved) ↦ new owner resolved
          ]

    payload-is_held :
        (r : Text) (cs : List Text) (d : Directory) {d' : Directory}
        → assert_can_grant_permissions c actor cs ≡ ok tt
        → sync_role_permissions c r cs d ≡ ok d'
        → has_grant role code d'.grants ≡ true
        → is_held c actor role code d.grants ≡ true
    payload-is_held r cs d checked e h =
        synced-is_held r cs d e
          (λ _ resolved.
            ground (
              arith,
              assert_can_grant_permissions-holds c actor code cs not_admin checked resolved,
            ))
          h

    create_role-is_held :
        (input : RoleInput) (d : Directory) {d' : Directory}
        → create_role c actor input d ≡ ok d'
        → has_grant role code d'.grants ≡ true
        → is_held c actor role code d.grants ≡ true
    create_role-is_held input d e h =
        let new = new_role_code input d.roles in
        let (checked, e₁) = create_role-passed c actor d input e in
        payload-is_held new input.permissions (with_new_role new input d) checked e₁ h

    -- What the codes that a role has resolve to with those of a payload.
    granted_together :
        (had cs : List Text)
        → All (λ s. strip s ≡ s) had
        → assert_can_grant_permissions c actor cs ≡ ok tt
        → mem code (resolve_role_codes c (had ++ cs)) ≡ true
        → (mem code (covered_codes c had) || actor.has_permission code) ≡ true
    granted_together had cs stripped checked resolved =
        let from = resolved_together c code plain named had cs stripped resolved in
        elim (Bool-cases (mem code (covered_codes c had))) [
          | inl e ↦ rw e refl
          | inr e ↦
              let new : mem code (resolve_role_codes c cs) ≡ true = ground (arith, from, e) in
              ground
                (arith, assert_can_grant_permissions-holds c actor code cs not_admin checked new)
        ]

    -- What is left of the codes of a role.
    left_over :
        (had cs : List Text)
        → All (λ s. strip s ≡ s) had
        → mem code
            (resolve_role_codes c (where_rows (λ s. not (mem s (revoked_codes c actor cs))) had))
          ≡ true
        → mem code (covered_codes c had) ≡ true
    left_over had cs stripped resolved =
        let stays : Text → Bool = λ s. not (mem s (revoked_codes c actor cs)) in
        resolved_part c code plain named had (where_rows stays had)
          (All-where_rows (λ s. strip s ≡ s) stays had stripped)
          (λ s there. where_rows-given s stays had there) resolved

    module _ (policy : PasswordPolicy) (hash_password : Text → Text) where
      -- A permission code that brings no others, and is not the wildcard, is granted to a role after a
      -- call only if it followed before from the codes of the role by the table of pages, or the
      -- caller has it, if the caller is no platform administrator and no code of the catalogue or of a
      -- grant has white space around it.
      pub Step-has_grant :
          {d d' : Directory}
          → Step c policy hash_password actor d d'
          → All (λ g. strip g.code ≡ g.code) d.grants
          → has_grant role code d'.grants ≡ true
          → (mem code (covered_codes c (role_permission_codes role d.grants))
              || actor.has_permission code)
            ≡ true
      Step-has_grant {d} (user_created input e) stripped h =
          kept-is_held
            (ap (λ x. x.grants) (create_user-passed c actor d policy hash_password input e).1) h
      Step-has_grant {d} (user_updated now key input e) stripped h =
          kept-is_held (update_user-grants c actor now key input d e) h
      Step-has_grant {d} (role_assigned key ref e) stripped h =
          kept-is_held (assign_role-grants c actor key ref d e) h
      Step-has_grant {d} (role_removed key gone e) stripped h =
          kept-is_held (ap (λ x. x.grants) (remove_role-passed c actor d key gone e).1) h
      Step-has_grant {d} (password_set now key password e) stripped h =
          kept-is_held (set_user_password-keeps c actor policy hash_password now key password d e).1
            h
      Step-has_grant {d} (logout_forced now key e) stripped h =
          kept-is_held (force_logout_user-keeps now key d e).1 h
      Step-has_grant {d} (users_deleted keys e) stripped h =
          kept-is_held (ap (λ x. x.grants) (delete_users-passed c actor d keys e).1) h
      Step-has_grant {d} (role_created input e) stripped h = create_role-is_held input d e h
      Step-has_grant {d} (role_updated key input e) stripped h =
          let (r, _, _, e₁) = update_role-passed c actor d key input e in
          let changed = record d { roles = modify_role key (changed_role input) d.roles } in
          elim (Option-cases input.permissions) [
            | inl absent ↦ kept-is_held (ap (λ x. x.grants) (ok-injective (rw absent at e₁))) h
            | inr (cs, given) ↦
                let (checked, e₂) =
                  change_permissions-passed c actor changed r.code cs (rw given at e₁) in
                payload-is_held r.code cs changed checked e₂ h
          ]
      Step-has_grant {d} (permissions_replaced key cs e) stripped h =
          let (r, checked, e₁) = replace_role_permissions-passed c actor d key cs e in
          payload-is_held r.code cs d checked e₁ h
      Step-has_grant {d} (permissions_granted key cs e) stripped h =
          let (r, checked, e₁) = grant_role_permissions-passed c actor d key cs e in
          let had = role_permission_codes r.code d.grants in
          synced-is_held r.code (had ++ cs) d e₁
            (λ owner resolved.
              ap (λ x. is_held c actor x code d.grants) (sym owner)
              ∙ granted_together had cs (role_permission_codes-All r.code d.grants stripped) checked
                  resolved)
            h
      Step-has_grant {d} (permissions_revoked key cs e) stripped h =
          let (r, e₁) = revoke_role_permissions-passed c actor d key cs e in
          let had = role_permission_codes r.code d.grants in
          synced-is_held r.code _ d e₁
            (λ owner resolved.
              ap (λ x. is_held c actor x code d.grants) (sym owner)
              ∙ rw (left_over had cs (role_permission_codes-All r.code d.grants stripped) resolved)
                  refl)
            h
      Step-has_grant {d} (role_duplicated key name new_code e) stripped h =
          let (input, e₁) = duplicate_role-passed c actor d key name new_code e in
          create_role-is_held input d e₁ h
      Step-has_grant {d} (roles_deleted keys e) stripped h =
          let gone_codes = map (λ r. r.code) (where_rows (λ r. in_keys keys r.id) d.roles) in
          let stays : Grant → Bool = λ g. not (mem g.role_code gone_codes) in
          had-is_held d.grants (
            where_rows-any (grant_of role code) stays d.grants
              (ap (λ x. has_grant role code x.grants) (sym (delete_roles-passed keys d e).1) ∙ h))
