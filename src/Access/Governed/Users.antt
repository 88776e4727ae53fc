-- ===== src/Access/Governed/Users.antt =====
-- The calls on users leave the tables governed.
use lcs_system.Shared.{
  ℕ, ◌+◌, ◌==◌, ◌<◌, ◌≡◌, refl, sym, ◌∙◌, ap, true, false, Option, none, some, or_else, List, [],
  ◌∷◌, All, All-imp, ok, ok-injective, Text, upper, arith, inl, inr, ◌⊎◌, Bool-cases, eqb→eq,
}
use lcs_system.Auth.{User}
use lcs_system.Access.{
  Assignment, Directory, mem, is_active, active_user, has_role, user_role_codes, super_admin_role,
  set_user_roles,
}
use lcs_system.Access.Permissions.{Catalogue}
use lcs_system.Access.Guards.{
  Actor, PasswordPolicy, other_active, is_last_admin, requested_role_codes,
}
use lcs_system.Access.Accounts.{
  with_code, given_code, with_roles, with_status, UserInput, UserChange, RoleRef, modify_user,
  revoke_all_sessions, bump_version,
}
use lcs_system.Access.Users.{
  create_user, update_user, assign_role, remove_role, change_roles, change_user_status,
}
use lcs_system.Access.Users.Passed.{
  create_user-passed, with_code-passed, change_roles-absent, change_user_status-absent,
  change_roles-passed, change_user_status-passed, update_user-passed, assign_role-passed,
  remove_role-passed,
}
use lcs_system.Access.Governed.{IsGoverned}
use lcs_system.Access.Governed.Rows.{
  active_user-modify, has_role-other, has_role-given, users_with_role-found, mem-user_role_codes,
  super_admin_role-IsTrimmed,
}

active_user-fresh :
    (k n : ℕ) (users : List User) → All (λ u. u.id < n) users → active_user k users ≡ true → k < n
active_user-fresh k n [] fresh h = cc
active_user-fresh k n (u ∷ us) fresh h =
    ground (arith, h, fresh.0, active_user-fresh k n us fresh.1)

fresh-modify :
    (n key : ℕ) (f : User → User)
    → ((u : User) → (f u).id ≡ u.id)
    → (users : List User) → All (λ u. u.id < n) users
    → All (λ u. u.id < n) (modify_user key f users)
fresh-modify n key f same [] h = tt
fresh-modify n key f same (u ∷ us) h =
    (ground (arith, h.0, same u), fresh-modify n key f same us h.1)

-- A governor that is left when the check for one passes.
governor_left :
    (key : ℕ) (new_codes : List Text) (d : Directory)
    → IsGoverned d
    → is_last_admin key new_codes d.users d.assignments ≡ false
    → (k : ℕ) × (active_user k d.users ≡ true)
      × (has_role k super_admin_role d.assignments ≡ true)
      × ((mem super_admin_role new_codes ≡ true) ⊎ ((k == key) ≡ false))
governor_left key new_codes d h guard = elim (Bool-cases (mem super_admin_role new_codes)) [
  | inl given ↦ (h.governor, h.live, h.assigned, inl given)
  | inr given ↦ elim (Bool-cases (h.governor == key)) [
    | inr other ↦ (h.governor, h.live, h.assigned, inr other)
    | inl same ↦
        let member : mem super_admin_role (user_role_codes key d.assignments) ≡ true =
          mem-user_role_codes key super_admin_role d.assignments
          ∙ rw (sym (eqb→eq h.governor key same)) h.assigned in
        let (k, t, found) =
          users_with_role-found (other_active key d.users) super_admin_role d.assignments
            (ground (arith, guard, given, member)) in
        (k, ground (arith, t), found, inr (ground (arith, t)))
  ]
]

assigned_again :
    (key k : ℕ) (new_codes : List Text) (rows : List Assignment)
    → mem super_admin_role new_codes ≡ true
    → has_role k super_admin_role rows ≡ true
    → has_role k super_admin_role (set_user_roles key new_codes rows) ≡ true
assigned_again key k new_codes rows given assigned = elim (Bool-cases (k == key)) [
  | inl same ↦
      rw (eqb→eq k key same)
        (has_role-given key super_admin_role new_codes rows super_admin_role-IsTrimmed given)
  | inr other ↦ has_role-other key k super_admin_role new_codes rows other assigned
]

-- The roles of a user are replaced, when the check for a governor passes.
with_roles-IsGoverned :
    (key : ℕ) (new_codes : List Text) (d : Directory)
    → IsGoverned d
    → is_last_admin key new_codes d.users d.assignments ≡ false
    → IsGoverned (with_roles key new_codes d)
with_roles-IsGoverned key new_codes d h guard =
    let (k, live, assigned, left) = governor_left key new_codes d h guard in
    record {
      governor = k;
      live = live;
      assigned = elim left [
        | inl given ↦ assigned_again key k new_codes d.assignments given assigned
        | inr other ↦ has_role-other key k super_admin_role new_codes d.assignments other assigned
      ];
      role = h.role;
      grant = h.grant;
      fresh = h.fresh;
    }

pub revoke_all_sessions-IsGoverned :
    (now key : ℕ) (d : Directory) → IsGoverned d → IsGoverned (revoke_all_sessions now key d)
unfolding revoke_all_sessions
revoke_all_sessions-IsGoverned now key d h = record {
  governor = h.governor;
  live = active_user-modify key bump_version (λ u. refl) h.governor (λ u e t. e) d.users h.live;
  assigned = h.assigned;
  role = h.role;
  grant = h.grant;
  fresh = fresh-modify d.next_id key bump_version (λ u. refl) d.users h.fresh;
}

module _ (catalogue : Catalogue) (actor : Actor) where
  pub create_user-IsGoverned :
      (policy : PasswordPolicy) (hash_password : Text → Text) (input : UserInput) (d : Directory)
      {d' : Directory}
      → IsGoverned d
      → create_user catalogue actor policy hash_password input d ≡ ok d'
      → IsGoverned d'
  create_user-IsGoverned policy hash_password input d h e =
      let requested = or_else (requested_role_codes input.role_code) [] in
      let (_, same) = create_user-passed catalogue actor d policy hash_password input e in
      let below = active_user-fresh h.governor d.next_id d.users h.fresh h.live in
      rw same (record {
        governor = h.governor;
        live = ground (arith, below, h.live);
        assigned =
            has_role-other d.next_id h.governor super_admin_role requested d.assignments
              (ground (arith, below)) h.assigned;
        role = h.role;
        grant = h.grant;
        fresh = (
          omega arith,
          All-imp (λ u. u.id < d.next_id) (λ u. u.id < d.next_id + 1) d.users
              (λ u b. omega (arith, b)) h.fresh,
        );
      })

-- A user is changed in a way that leaves the status, or makes it active.
modify_user-IsGoverned :
    (key : ℕ) (f : User → User) (d : Directory)
    → ((u : User) → (f u).id ≡ u.id)
    → ((u : User) → is_active u.status ≡ true → is_active (f u).status ≡ true)
    → IsGoverned d
    → IsGoverned (record d { users = modify_user key f d.users })
modify_user-IsGoverned key f d same kept h = record {
  governor = h.governor;
  live = active_user-modify key f same h.governor (λ u e _. kept u e) d.users h.live;
  assigned = h.assigned;
  role = h.role;
  grant = h.grant;
  fresh = fresh-modify d.next_id key f same d.users h.fresh;
}

with_code-IsGoverned :
    (key : ℕ) (code : Option Text) (d : Directory) {d' : Directory}
    → IsGoverned d
    → with_code key code d ≡ ok d'
    → IsGoverned d'
with_code-IsGoverned key none d h e = rw (ok-injective e) h
with_code-IsGoverned key (some code) d h e =
    rw (with_code-passed key code d e)
      (modify_user-IsGoverned key (λ u. record u { user_code = code }) d (λ u. refl) (λ u a. a) h)

pub upper_twice : (t : Text) → upper (upper t) ≡ upper t
upper_twice [] = refl
upper_twice (c ∷ t) = rw (upper_twice t) (ap (λ x. x ∷ upper t) (ground arith))

-- A user other than some governor, or nobody's, is deactivated.
deactivated-IsGoverned :
    (now key : ℕ) (status : Text) (d : Directory)
    → IsGoverned d
    → is_last_admin key [] d.users d.assignments ≡ false
    → IsGoverned (record d { users = modify_user key (λ u. record u { status = status }) d.users })
deactivated-IsGoverned now key status d h guard =
    let (k, live, assigned, left) = governor_left key [] d h guard in
    elim left [
      | inl given ↦ cc
      | inr other ↦ record {
        governor = k;
        live =
            active_user-modify key (λ u. record u { status = status }) (λ u. refl) k
              (λ u _ same. cc (same, other)) d.users live;
        assigned = assigned;
        role = h.role;
        grant = h.grant;
        fresh =
            fresh-modify d.next_id key (λ u. record u { status = status }) (λ u. refl) d.users
              h.fresh;
      }
    ]

module _ (catalogue : Catalogue) (actor : Actor) where
  change_roles-IsGoverned :
      (key : ℕ) (requested : Option (List Text)) (d : Directory) {d' : Directory}
      → IsGoverned d
      → change_roles catalogue actor key requested d ≡ ok d'
      → IsGoverned d'
  change_roles-IsGoverned key none d h e = rw (change_roles-absent catalogue actor key d e) h
  change_roles-IsGoverned key (some requested) d h e =
      elim (change_roles-passed catalogue actor d key requested e) [
        | inl same ↦ rw same h
        | inr (_, guard, same) ↦ rw same (with_roles-IsGoverned key requested d h guard)
      ]

  change_user_status-IsGoverned :
      (now key : ℕ) (current : List Text) (status : Option Text) (d : Directory) {d' : Directory}
      → IsGoverned d
      → change_user_status catalogue actor now key current status d ≡ ok d'
      → IsGoverned d'
  change_user_status-IsGoverned now key current none d h e =
      rw (change_user_status-absent catalogue actor now key current d e) h
  change_user_status-IsGoverned now key current (some status) d h e =
      elim (change_user_status-passed catalogue actor d now key current status e) [
        | inl (a, same) ↦ rw same (
            modify_user-IsGoverned key (λ u. record u { status = upper status }) d (λ u. refl)
              (λ u _. rw (upper_twice status) a) h)
        | inr (guard, same) ↦ rw same (
            revoke_all_sessions-IsGoverned now key (with_status key status d)
              (deactivated-IsGoverned now key (upper status) d h guard))
      ]

  pub update_user-IsGoverned :
      (now key : ℕ) (input : UserChange) (d : Directory) {d' : Directory}
      → IsGoverned d
      → update_user catalogue actor now key input d ≡ ok d'
      → IsGoverned d'
  update_user-IsGoverned now key input d h e =
      let (coded, changed, c, r, e₁) = update_user-passed catalogue actor d now key input e in
      change_user_status-IsGoverned now key (user_role_codes key d.assignments) input.status changed
        (change_roles-IsGoverned key (requested_role_codes input.role_code) coded
          (with_code-IsGoverned key (given_code input.user_code) d h c) r)
        e₁

  pub assign_role-IsGoverned :
      (key : ℕ) (ref : RoleRef) (d : Directory) {d' : Directory}
      → IsGoverned d
      → assign_role catalogue actor key ref d ≡ ok d'
      → IsGoverned d'
  assign_role-IsGoverned key ref d h e = elim (assign_role-passed catalogue actor d key ref e) [
    | inl same ↦ rw same h
    | inr (r, _, _, guard, same) ↦ rw same (with_roles-IsGoverned key (r.code ∷ []) d h guard)
  ]

  pub remove_role-IsGoverned :
      (key : ℕ) (code : Text) (d : Directory) {d' : Directory}
      → IsGoverned d
      → remove_role catalogue actor key code d ≡ ok d'
      → IsGoverned d'
  remove_role-IsGoverned key code d h e =
      let (guard, same) = remove_role-passed catalogue actor d key code e in
      rw same (with_roles-IsGoverned key _ d h guard)
