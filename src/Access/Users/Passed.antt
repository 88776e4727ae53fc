-- ===== src/Access/Users/Passed.antt =====
-- What a call on users has passed when it goes through.
use lcs_system.Shared.{
  ℕ, ◌==◌, ◌≡◌, true, false, ◌&&◌, not, none, some, or_else, List, [], ◌∷◌, where_rows, is_empty,
  Outcome, ok, or_raise, raise_if, ◌>>◌, >>=-eq-ok, >>-eq-ok, >>-passed, raise_if-eq-ok,
  or_raise-eq-ok, ok-injective, arith, not_found, duplicate_email, duplicate_username,
  duplicate_user_code, access_denied, validation_failed, conflict, Text, text_eqb, strip, upper,
  inl, inr, ◌⊎◌, Bool-cases,
}
use lcs_system.Access.{Role, Directory, any, mem, is_active, user_by_id, user_role_codes}
use lcs_system.Access.Permissions.{Catalogue}
use lcs_system.Access.Guards.{
  Actor, PasswordPolicy, is_super, same_codes, is_weak, for_each, load_roles,
  assert_can_assign_role, assert_can_manage_protected_role, assert_can_touch_super_admin,
  is_last_admin, assert_super_admin_remains, requested_role_codes,
}
use lcs_system.Access.Accounts.{
  in_keys, leaves_admin, inactive_all, without_users, found_keys, with_code, given_code, code_taken,
  refuses_role, refuses_status, role_in, with_roles, with_status, with_new_user, text_or, UserInput,
  UserChange, RoleRef, modify_user, revoke_all_sessions,
}
use lcs_system.Access.Users.{
  delete_users, create_user, update_user, assign_role, remove_role, change_roles,
  change_user_status,
}

remains-passed :
    (key : ℕ) (new_codes : List Text) (d : Directory) (rest : Outcome Directory) {d' : Directory}
    → (assert_super_admin_remains key new_codes d.users d.assignments >> rest) ≡ ok d'
    → (is_last_admin key new_codes d.users d.assignments ≡ false) × (rest ≡ ok d')
unfolding assert_super_admin_remains
remains-passed key new_codes d rest e =
    raise_if-eq-ok (is_last_admin key new_codes d.users d.assignments) validation_failed (λ _. rest)
      e

pub with_code-passed :
    (key : ℕ) (code : Text) (d : Directory) {d' : Directory}
    → with_code key (some code) d ≡ ok d'
    → d' ≡ record d { users = modify_user key (λ u. record u { user_code = code }) d.users }
with_code-passed key code d e =
    ok-injective
      (>>-eq-ok (raise_if (code_taken key code d.users) (conflict duplicate_user_code)) _ e)

pub change_roles-absent :
    (catalogue : Catalogue) (actor : Actor) (key : ℕ) (d : Directory) {d' : Directory}
    → change_roles catalogue actor key none d ≡ ok d'
    → d' ≡ d
unfolding change_roles
change_roles-absent catalogue actor key d e = ok-injective e

pub change_user_status-absent :
    (catalogue : Catalogue) (actor : Actor) (now key : ℕ) (current : List Text) (d : Directory)
    {d' : Directory}
    → change_user_status catalogue actor now key current none d ≡ ok d'
    → d' ≡ d
unfolding change_user_status
change_user_status-absent catalogue actor now key current d e = ok-injective e

module _ (catalogue : Catalogue) (actor : Actor) (d : Directory) {d' : Directory} where
  pub create_user-passed :
      (policy : PasswordPolicy) (hash_password : Text → Text) (input : UserInput)
      → create_user catalogue actor policy hash_password input d ≡ ok d'
      → (for_each
            (assert_can_assign_role catalogue actor d.grants)
            (or_else (requested_role_codes input.role_code) [])
          ≡ ok tt)
        × (d'
            ≡ with_new_user
                (strip (text_or input.user_code (upper input.username)))
                (hash_password input.password)
                (or_else (requested_role_codes input.role_code) [])
                input
                d)
  unfolding create_user
  create_user-passed policy hash_password input e =
      let code = strip (text_or input.user_code (upper input.username)) in
      let requested = or_else (requested_role_codes input.role_code) [] in
      let e₁ =
        >>-eq-ok
          (raise_if (any (λ u. text_eqb u.email input.email) d.users) (conflict duplicate_email)) _
          e in
      let e₂ =
        >>-eq-ok
          (raise_if (any (λ u. text_eqb u.username input.username) d.users)
            (conflict duplicate_username))
          _ e₁ in
      let e₃ =
        >>-eq-ok
          (raise_if (any (λ u. text_eqb u.user_code code) d.users) (conflict duplicate_user_code)) _
          e₂ in
      let e₄ = >>-eq-ok (raise_if (is_empty requested) validation_failed) _ e₃ in
      let e₅ = >>-eq-ok (for_each (assert_can_manage_protected_role actor) requested) _ e₄ in
      let e₆ = >>-eq-ok (load_roles d.roles requested) _ e₅ in
      let (checked, e₇) =
        >>-passed (for_each (assert_can_assign_role catalogue actor d.grants) requested) _ e₆ in
      let e₈ = >>-eq-ok (raise_if (is_weak policy input.password) validation_failed) _ e₇ in
      (checked, ok-injective e₈)

  pub change_roles-passed :
      (key : ℕ) (requested : List Text)
      → change_roles catalogue actor key (some requested) d ≡ ok d'
      → (d' ≡ d)
        ⊎ ((for_each (assert_can_assign_role catalogue actor d.grants) requested ≡ ok tt)
            × (is_last_admin key requested d.users d.assignments ≡ false)
            × (d' ≡ with_roles key requested d))
  unfolding change_roles
  change_roles-passed key requested e =
      let current = user_role_codes key d.assignments in
      elim (Bool-cases (same_codes requested current)) [
        | inl same ↦ inl (ok-injective (rw same at e))
        | inr differs ↦
            let e₁ = >>-eq-ok (raise_if (actor.user_id == key) access_denied) _ (rw differs at e) in
            let e₂ = >>-eq-ok (assert_can_touch_super_admin actor current requested) _ e₁ in
            let e₃ = >>-eq-ok (for_each (assert_can_manage_protected_role actor) requested) _ e₂ in
            let e₄ = >>-eq-ok (load_roles d.roles requested) _ e₃ in
            let (checked, e₅) =
              >>-passed (for_each (assert_can_assign_role catalogue actor d.grants) requested) _
                e₄ in
            let (guard, e₆) = remains-passed key requested d _ e₅ in
            inr (checked, guard, ok-injective e₆)
      ]

  pub change_user_status-passed :
      (now key : ℕ) (current : List Text) (status : Text)
      → change_user_status catalogue actor now key current (some status) d ≡ ok d'
      → ((is_active status ≡ true) × (d' ≡ with_status key status d))
        ⊎ ((is_last_admin key [] d.users d.assignments ≡ false)
            × (d' ≡ revoke_all_sessions now key (with_status key status d)))
  unfolding change_user_status
  change_user_status-passed now key current status e = elim (Bool-cases (is_active status)) [
    | inl a ↦ inl (a, ok-injective (rw a at e))
    | inr a ↦
        let e₁ = >>-eq-ok (raise_if (actor.user_id == key) access_denied) _ (rw a at e) in
        let e₂ = >>-eq-ok (assert_can_touch_super_admin actor current []) _ e₁ in
        let (guard, e₃) = remains-passed key [] d _ e₂ in inr (guard, ok-injective e₃)
  ]

  pub update_user-passed :
      (now key : ℕ) (input : UserChange)
      → update_user catalogue actor now key input d ≡ ok d'
      → (coded : Directory) × (changed : Directory) × (with_code key (given_code input.user_code) d
          ≡ ok coded)
        × (change_roles catalogue actor key (requested_role_codes input.role_code) coded
            ≡ ok changed)
        × (change_user_status catalogue actor now key
              (user_role_codes key d.assignments)
              input.status
              changed
            ≡ ok d')
  unfolding update_user
  update_user-passed now key input e =
      let requested = requested_role_codes input.role_code in
      let (user, _, e₁) = >>=-eq-ok (or_raise (user_by_id key d.users) not_found) _ e in
      let e₂ = >>-eq-ok (raise_if (refuses_role user requested) access_denied) _ e₁ in
      let e₃ = >>-eq-ok (raise_if (refuses_status user input.status) access_denied) _ e₂ in
      let (coded, c, e₄) = >>=-eq-ok (with_code key (given_code input.user_code) d) _ e₃ in
      let (changed, r, e₅) = >>=-eq-ok (change_roles catalogue actor key requested coded) _ e₄ in
      (coded, changed, c, r, e₅)

  pub assign_role-passed :
      (key : ℕ) (ref : RoleRef)
      → assign_role catalogue actor key ref d ≡ ok d'
      → (d' ≡ d)
        ⊎ ((r : Role) × (role_in ref d.roles ≡ some r)
            × (assert_can_assign_role catalogue actor d.grants r.code ≡ ok tt)
            × (is_last_admin key (r.code ∷ []) d.users d.assignments ≡ false)
            × (d' ≡ with_roles key (r.code ∷ []) d))
  unfolding assign_role
  assign_role-passed key ref e =
      let current = user_role_codes key d.assignments in
      let (user, _, e₁) = >>=-eq-ok (or_raise (user_by_id key d.users) not_found) _ e in
      let (role, found, e₂) = or_raise-eq-ok (role_in ref d.roles) not_found _ e₁ in
      let e₃ = >>-eq-ok (raise_if (not (is_active role.status)) validation_failed) _ e₂ in
      let e₄ =
        >>-eq-ok (raise_if (user.is_system_admin && not (is_super role.code)) access_denied) _ e₃ in
      let e₅ = >>-eq-ok (assert_can_manage_protected_role actor role.code) _ e₄ in
      elim (Bool-cases (mem role.code current)) [
        | inl had ↦ inl (ok-injective (rw had at e₅))
        | inr lacks ↦
            let e₆ = >>-eq-ok (raise_if (actor.user_id == key) access_denied) _ (rw lacks at e₅) in
            let e₇ = >>-eq-ok (assert_can_touch_super_admin actor current (role.code ∷ [])) _ e₆ in
            let (checked, e₈) =
              >>-passed (assert_can_assign_role catalogue actor d.grants role.code) _ e₇ in
            let (guard, e₉) = remains-passed key (role.code ∷ []) d _ e₈ in
            inr (role, found, checked, guard, ok-injective e₉)
      ]

  pub remove_role-passed :
      (key : ℕ) (code : Text)
      → remove_role catalogue actor key code d ≡ ok d'
      → (is_last_admin key
            (where_rows (λ c. not (text_eqb c code)) (user_role_codes key d.assignments))
            d.users
            d.assignments
          ≡ false)
        × (d'
            ≡ with_roles key
                (where_rows (λ c. not (text_eqb c code)) (user_role_codes key d.assignments))
                d)
  unfolding remove_role
  remove_role-passed key code e =
      let current = user_role_codes key d.assignments in
      let (user, _, e₁) = >>=-eq-ok (or_raise (user_by_id key d.users) not_found) _ e in
      let e₂ = >>-eq-ok (raise_if (not (mem code current)) not_found) _ e₁ in
      let e₃ = >>-eq-ok (raise_if user.is_system_admin access_denied) _ e₂ in
      let e₄ = >>-eq-ok (raise_if (actor.user_id == key) access_denied) _ e₃ in
      let e₅ = >>-eq-ok (assert_can_touch_super_admin actor current []) _ e₄ in
      let (guard, e₆) =
        remains-passed key (where_rows (λ c. not (text_eqb c code)) current) d _ e₅ in
      (guard, ok-injective e₆)

  pub delete_users-passed :
      (keys : List ℕ)
      → delete_users catalogue actor keys d ≡ ok d'
      → (leaves_admin (found_keys keys d.users) d ≡ true)
        × (d' ≡ without_users (found_keys keys d.users) d)
  unfolding delete_users
  delete_users-passed keys e =
      let gone = where_rows (λ u. in_keys keys u.id) d.users in
      let gone_keys = found_keys keys d.users in
      let e₁ = >>-eq-ok (raise_if (any (λ u. u.is_system_admin) gone) access_denied) _ e in
      let e₂ = >>-eq-ok (raise_if (in_keys keys actor.user_id) access_denied) _ e₁ in
      let (stays, e₃) = raise_if-eq-ok (not (leaves_admin gone_keys d)) validation_failed _ e₂ in
      let e₄ = >>-eq-ok (inactive_all gone) _ e₃ in
      let e₅ =
        >>-eq-ok (raise_if (is_empty (without_users gone_keys d).users) validation_failed) _ e₄ in
      (ground (arith, stays), ok-injective e₅)
