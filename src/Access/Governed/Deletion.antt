-- ===== src/Access/Governed/Deletion.antt =====
-- Users are deleted, signed out or given a password, and somebody still governs.
use lcs_system.Shared.{
  ℕ, ◌==◌, ◌<◌, ◌≡◌, refl, sym, true, false, ◌&&◌, not, List, [], ◌∷◌, where_rows, All-where_rows,
  ok, or_raise, raise_if, >>=-eq-ok, >>-eq-ok, ok-injective, not_found, validation_failed, Text,
  arith, inl, inr, Bool-cases, eqb→eq,
}
use lcs_system.Auth.{User}
use lcs_system.Access.{
  Assignment, Directory, any, active_user, role_of, has_role, user_by_id, users_with_role,
  user_role_codes, super_admin_role,
}
use lcs_system.Access.Permissions.{Catalogue}
use lcs_system.Access.Guards.{Actor, PasswordPolicy, is_weak, assert_can_manage_protected_role}
use lcs_system.Access.Accounts.{found_keys, in_keys, leaves_admin, put_password, super_of}
use lcs_system.Access.Users.{set_user_password, force_logout_user, delete_users}
use lcs_system.Access.Users.Passed.{delete_users-passed}
use lcs_system.Access.Governed.{IsGoverned}
use lcs_system.Access.Governed.Rows.{any-where_rows, users_with_role-found}
use lcs_system.Access.Governed.Users.{revoke_all_sessions-IsGoverned}

same_in_keys :
    (keys : List ℕ) (j k : ℕ)
    → (j == k) ≡ true
    → in_keys keys k ≡ false
    → not (in_keys keys j) ≡ true
same_in_keys keys j k e h = rw (eqb→eq j k e, h) refl

active_user-where_rows :
    (keys : List ℕ) (k : ℕ) (users : List User)
    → in_keys keys k ≡ false
    → active_user k users ≡ true
    → active_user k (where_rows (λ u. not (in_keys keys u.id)) users) ≡ true
active_user-where_rows keys k [] out h = cc
active_user-where_rows keys k (u ∷ us) out h = elim (Bool-cases (u.id == k)) [
  | inl e ↦ rw (same_in_keys keys u.id k e out) (ground (arith, h, e))
  | inr e ↦
      let rest = active_user-where_rows keys k us out (ground (arith, h, e)) in
      elim (Bool-cases (not (in_keys keys u.id))) [
        | inl p ↦ rw p (ground (arith, rest, e))
        | inr p ↦ rw p rest
      ]
]

admin_stays :
    (keys : List ℕ) (k : ℕ) (rows : List Assignment)
    → any (in_keys keys) (users_with_role super_admin_role rows) ≡ false
    → has_role k super_admin_role rows ≡ true
    → in_keys keys k ≡ false
admin_stays keys k [] none_gone h = cc
admin_stays keys k (a ∷ rows) none_gone h = elim (Bool-cases (role_of k super_admin_role a)) [
  | inl here ↦
      let same = eqb→eq a.user_id k (ground (arith, here)) in
      rw (sym same) (ground (arith, here, none_gone))
  | inr there ↦ admin_stays keys k rows (ground (arith, none_gone)) (ground (arith, h, there))
]

-- A super administrator who stays.
governor_stays :
    (keys : List ℕ) (d : Directory)
    → IsGoverned d
    → leaves_admin keys d ≡ true
    → (k : ℕ) × (active_user k d.users ≡ true)
      × (has_role k super_admin_role d.assignments ≡ true)
      × (in_keys keys k ≡ false)
governor_stays keys d h leaves =
    let admins = users_with_role super_admin_role d.assignments in
    elim (Bool-cases (any (in_keys keys) admins)) [
      | inr none_gone ↦ (
        h.governor,
        h.live,
        h.assigned,
        admin_stays keys h.governor d.assignments none_gone h.assigned,
      )
      | inl some_gone ↦
          let (k, t, found) =
            users_with_role-found (λ k. not (in_keys keys k) && active_user k d.users)
              super_admin_role d.assignments (ground (arith, leaves, some_gone)) in
          (k, ground (arith, t), found, ground (arith, t))
    ]

pub delete_users-IsGoverned :
    (catalogue : Catalogue) (actor : Actor) (keys : List ℕ) (d : Directory) {d' : Directory}
    → IsGoverned d
    → delete_users catalogue actor keys d ≡ ok d'
    → IsGoverned d'
delete_users-IsGoverned catalogue actor keys d h e =
    let gone_keys = found_keys keys d.users in
    let (leaves, same) = delete_users-passed catalogue actor d keys e in
    let (k, live, assigned, out) = governor_stays gone_keys d h leaves in
    rw same (record {
      governor = k;
      live = active_user-where_rows gone_keys k d.users out live;
      assigned =
          any-where_rows (role_of k super_admin_role) (λ a. not (in_keys gone_keys a.user_id))
            (λ a r. same_in_keys gone_keys a.user_id k (ground (arith, r)) out) d.assignments
            assigned;
      role = h.role;
      grant = h.grant;
      fresh =
          All-where_rows (λ u. u.id < d.next_id) (λ u. not (in_keys gone_keys u.id)) d.users
            h.fresh;
    })

pub force_logout_user-IsGoverned :
    (now key : ℕ) (d : Directory) {d' : Directory}
    → IsGoverned d
    → force_logout_user now key d ≡ ok d'
    → IsGoverned d'
unfolding force_logout_user
force_logout_user-IsGoverned now key d h e =
    let (user, _, e₁) = >>=-eq-ok (or_raise (user_by_id key d.users) not_found) _ e in
    rw (ok-injective e₁) (revoke_all_sessions-IsGoverned now key d h)

pub set_user_password-IsGoverned :
    (catalogue : Catalogue) (actor : Actor) (policy : PasswordPolicy) (hash_password : Text → Text)
    (now key : ℕ) (password : Text) (d : Directory) {d' : Directory}
    → IsGoverned d
    → set_user_password catalogue actor policy hash_password now key password d ≡ ok d'
    → IsGoverned d'
unfolding set_user_password
set_user_password-IsGoverned catalogue actor policy hash_password now key password d h e =
    let hash = hash_password password in
    let stored = record d { credentials = put_password key hash d.credentials } in
    let (user, _, e₁) = >>=-eq-ok (or_raise (user_by_id key d.users) not_found) _ e in
    let e₂ =
      >>-eq-ok
        (assert_can_manage_protected_role actor (super_of (user_role_codes key d.assignments))) _
        e₁ in
    let e₃ = >>-eq-ok (raise_if (is_weak policy password) validation_failed) _ e₂ in
    rw (ok-injective e₃) (
      revoke_all_sessions-IsGoverned now key stored (record {
        governor = h.governor;
        live = h.live;
        assigned = h.assigned;
        role = h.role;
        grant = h.grant;
        fresh = h.fresh;
      }))
