-- ===== src/Access/Escalation/Users.antt =====
-- The calls on users assign no role that the caller may not assign.
use lcs_system.Shared.{
  ℕ, ◌==◌, ◌≡◌, refl, sym, ◌∙◌, ap, true, false, ◌||◌, not, Option, none, some, or_else, Bool, List,
  [], ◌∷◌, where_rows, is_empty, All, All-where_rows, ok, ok-injective, Text, text_eqb, strip,
  arith, inl, inr, Bool-cases, eqb→eq,
}
use lcs_system.Access.{
  Role, Assignment, Directory, mem, given_codes, role_by_id, role_by_code, has_role,
  user_role_codes, wildcard, set_user_roles,
}
use lcs_system.Access.Permissions.{Catalogue}
use lcs_system.Access.Guards.{
  Actor, PasswordPolicy, for_each, assert_can_assign_role, requested_role_codes,
}
use lcs_system.Access.Accounts.{
  with_code, given_code, role_in, with_status, UserInput, UserChange, RoleRef, by_id, by_code,
  no_role, revoke_all_sessions,
}
use lcs_system.Access.Users.{
  create_user, update_user, assign_role, remove_role, change_roles, change_user_status,
}
use lcs_system.Access.Users.Passed.{
  create_user-passed, with_code-passed, change_roles-absent, change_user_status-absent,
  change_roles-passed, change_user_status-passed, update_user-passed, assign_role-passed,
  remove_role-passed,
}
use lcs_system.Access.Governed.{has_grant}
use lcs_system.Access.Governed.Rows.{IsTrimmed, mem-user_role_codes}
use lcs_system.Access.Escalation.{IsTidy, IsKept}
use lcs_system.Access.Escalation.Rows.{
  set_user_roles-has_role, given_codes-mem, strip_twice, user_role_codes-All, where_rows-any,
}
use lcs_system.Access.Escalation.Resolved.{assert_can_assign_role-holds, for_each-mem}

requested_role_codes-All :
    (given : Option Text) → All (λ s. strip s ≡ s) (or_else (requested_role_codes given) [])
unfolding requested_role_codes
requested_role_codes-All none = tt
requested_role_codes-All (some t) = elim (Bool-cases (is_empty (strip t))) [
  | inl e ↦ rw e tt
  | inr e ↦ rw e (strip_twice t, tt)
]

role_by_id-strip :
    (key : ℕ) (roles : List Role) {r : Role}
    → All (λ r. strip r.code ≡ r.code) roles
    → role_by_id key roles ≡ some r
    → strip r.code ≡ r.code
role_by_id-strip key [] tidy e = cc
role_by_id-strip key (x ∷ rs) tidy e = elim (Bool-cases (x.id == key)) [
  | inl here ↦ cc (rw here at e, tidy.0)
  | inr there ↦ role_by_id-strip key rs tidy.1 (rw there at e)
]

role_by_code-strip :
    (code : Text) (roles : List Role) {r : Role}
    → All (λ r. strip r.code ≡ r.code) roles
    → role_by_code code roles ≡ some r
    → strip r.code ≡ r.code
role_by_code-strip code [] tidy e = cc
role_by_code-strip code (x ∷ rs) tidy e = elim (Bool-cases (text_eqb x.code code)) [
  | inl here ↦ cc (rw here at e, tidy.0)
  | inr there ↦ role_by_code-strip code rs tidy.1 (rw there at e)
]

role_in-strip :
    (ref : RoleRef) (roles : List Role) {r : Role}
    → All (λ r. strip r.code ≡ r.code) roles
    → role_in ref roles ≡ some r
    → strip r.code ≡ r.code
role_in-strip (by_id key) roles tidy e = role_by_id-strip key roles tidy e
role_in-strip (by_code code) roles tidy e = role_by_code-strip code roles tidy e
role_in-strip no_role roles tidy e = cc

pub with_code-keeps :
    (key : ℕ) (code : Option Text) (d : Directory) {d' : Directory}
    → with_code key code d ≡ ok d'
    → IsKept d d'
with_code-keeps key none d e = rw (ok-injective e) (refl, refl)
with_code-keeps key (some code) d e = rw (with_code-passed key code d e) (refl, refl)

pub revoke_all_sessions-keeps :
    (now key : ℕ) (d : Directory) → IsKept d (revoke_all_sessions now key d)
unfolding revoke_all_sessions
revoke_all_sessions-keeps now key d = (refl, refl)

pub change_user_status-keeps :
    (catalogue : Catalogue) (actor : Actor) (now key : ℕ) (current : List Text)
    (status : Option Text) (d : Directory) {d' : Directory}
    → change_user_status catalogue actor now key current status d ≡ ok d'
    → IsKept d d'
change_user_status-keeps catalogue actor now key current none d e =
    rw (change_user_status-absent catalogue actor now key current d e) (refl, refl)
change_user_status-keeps catalogue actor now key current (some status) d e =
    elim (change_user_status-passed catalogue actor d now key current status e) [
      | inl (_, same) ↦ rw same (refl, refl)
      | inr (_, same) ↦ rw same (revoke_all_sessions-keeps now key (with_status key status d))
    ]

-- A role of a user that was had, or each permission of which the caller has.
abbrev pub is_earned : Actor → ℕ → Text → Text → List Assignment → Bool
is_earned actor k role code rows =
    has_role k role rows || actor.has_permission code || actor.has_permission wildcard

module _ (catalogue : Catalogue) (actor : Actor) (k : ℕ) (role code : Text)
    (not_admin : actor.is_platform_admin ≡ false) (trimmed : IsTrimmed code) where
  replaced-is_earned :
      (key : ℕ) (requested : List Text) (rows : List Assignment)
      → All (λ s. strip s ≡ s) requested
      → ((key == k) ≡ true → mem role requested ≡ true → is_earned actor k role code rows ≡ true)
      → has_role k role (set_user_roles key requested rows) ≡ true
      → is_earned actor k role code rows ≡ true
  replaced-is_earned key requested rows tidy new h =
      let from = set_user_roles-has_role key k role requested rows h in
      elim (Bool-cases (has_role k role rows)) [
        | inl had ↦ rw had refl
        | inr lacked ↦
            let given : ((key == k) ≡ true) × (mem role (given_codes requested) ≡ true) =
              ground (arith, from, lacked) in
            new given.0 (given_codes-mem role requested tidy given.1)
      ]

  assigned-is_earned :
      (requested : List Text) (d : Directory)
      → has_grant role code d.grants ≡ true
      → for_each (assert_can_assign_role catalogue actor d.grants) requested ≡ ok tt
      → mem role requested ≡ true
      → is_earned actor k role code d.assignments ≡ true
  assigned-is_earned requested d granted checked given = ground (
    arith,
    assert_can_assign_role-holds catalogue actor role code d.grants not_admin trimmed granted (
        for_each-mem (assert_can_assign_role catalogue actor d.grants) role requested checked
          given),
  )

  pub create_user-is_earned :
      (policy : PasswordPolicy) (hash_password : Text → Text) (input : UserInput) (d : Directory)
      {d' : Directory}
      → has_grant role code d.grants ≡ true
      → create_user catalogue actor policy hash_password input d ≡ ok d'
      → has_role k role d'.assignments ≡ true
      → is_earned actor k role code d.assignments ≡ true
  create_user-is_earned policy hash_password input d {d'} granted e has =
      let requested = or_else (requested_role_codes input.role_code) [] in
      let (checked, made) = create_user-passed catalogue actor d policy hash_password input e in
      let same : d'.assignments ≡ set_user_roles d.next_id requested d.assignments =
        ap (λ x. x.assignments) made in
      replaced-is_earned d.next_id requested d.assignments
        (requested_role_codes-All input.role_code)
        (λ _. assigned-is_earned requested d granted checked) (rw same at has)

  -- Nothing has changed.
  same-is_earned :
      (d : Directory) {d' : Directory}
      → d' ≡ d
      → has_role k role d'.assignments ≡ true
      → is_earned actor k role code d.assignments ≡ true
  same-is_earned d same has = ground (arith, ap (λ x. has_role k role x.assignments) same, has)

  change_roles-is_earned :
      (key : ℕ) (requested : Option (List Text)) (d : Directory) {d' : Directory}
      → All (λ s. strip s ≡ s) (or_else requested [])
      → has_grant role code d.grants ≡ true
      → change_roles catalogue actor key requested d ≡ ok d'
      → has_role k role d'.assignments ≡ true
      → is_earned actor k role code d.assignments ≡ true
  change_roles-is_earned key none d tidy granted e has =
      same-is_earned d (change_roles-absent catalogue actor key d e) has
  change_roles-is_earned key (some requested) d {d'} tidy granted e has =
      elim (change_roles-passed catalogue actor d key requested e) [
        | inl same ↦ same-is_earned d same has
        | inr (checked, _, made) ↦
            let same : d'.assignments ≡ set_user_roles key requested d.assignments =
              ap (λ x. x.assignments) made in
            replaced-is_earned key requested d.assignments tidy
              (λ _. assigned-is_earned requested d granted checked) (rw same at has)
      ]

  pub update_user-is_earned :
      (now key : ℕ) (input : UserChange) (d : Directory) {d' : Directory}
      → has_grant role code d.grants ≡ true
      → update_user catalogue actor now key input d ≡ ok d'
      → has_role k role d'.assignments ≡ true
      → is_earned actor k role code d.assignments ≡ true
  update_user-is_earned now key input d {d'} granted e has =
      let requested = requested_role_codes input.role_code in
      let current = user_role_codes key d.assignments in
      let (coded, changed, c, r, e₁) = update_user-passed catalogue actor d now key input e in
      let (rows, grants) = with_code-keeps key (given_code input.user_code) d c in
      let kept = change_user_status-keeps catalogue actor now key current input.status changed e₁ in
      ap (is_earned actor k role code) (sym rows)
      ∙ change_roles-is_earned key requested coded (requested_role_codes-All input.role_code)
          (ap (has_grant role code) grants ∙ granted) r (ap (has_role k role) (sym kept.0) ∙ has)

  pub assign_role-is_earned :
      (key : ℕ) (ref : RoleRef) (d : Directory) {d' : Directory}
      → IsTidy d
      → has_grant role code d.grants ≡ true
      → assign_role catalogue actor key ref d ≡ ok d'
      → has_role k role d'.assignments ≡ true
      → is_earned actor k role code d.assignments ≡ true
  assign_role-is_earned key ref d {d'} tidy granted e has =
      elim (assign_role-passed catalogue actor d key ref e) [
        | inl same ↦ same-is_earned d same has
        | inr (r, found, checked, _, made) ↦
            let same : d'.assignments ≡ set_user_roles key (r.code ∷ []) d.assignments =
              ap (λ x. x.assignments) made in
            replaced-is_earned key (r.code ∷ []) d.assignments
              (role_in-strip ref d.roles tidy.roles found, tt)
              (λ _. assigned-is_earned (r.code ∷ []) d granted (rw checked refl)) (rw same at has)
      ]

  pub remove_role-is_earned :
      (key : ℕ) (gone : Text) (d : Directory) {d' : Directory}
      → IsTidy d
      → remove_role catalogue actor key gone d ≡ ok d'
      → has_role k role d'.assignments ≡ true
      → is_earned actor k role code d.assignments ≡ true
  remove_role-is_earned key gone d {d'} tidy e has =
      let current = user_role_codes key d.assignments in
      let remaining = where_rows (λ c. not (text_eqb c gone)) current in
      let same : d'.assignments ≡ set_user_roles key remaining d.assignments =
        ap (λ x. x.assignments) (remove_role-passed catalogue actor d key gone e).1 in
      replaced-is_earned key remaining d.assignments
        (All-where_rows (λ s. strip s ≡ s) (λ c. not (text_eqb c gone)) current
          (user_role_codes-All key d.assignments tidy.assignments))
        (λ same_key held.
          let had : has_role key role d.assignments ≡ true =
            sym (mem-user_role_codes key role d.assignments)
            ∙ where_rows-any (λ s. text_eqb s role) (λ c. not (text_eqb c gone)) current held in
          rw (sym (eqb→eq key k same_key), had) refl)
        (rw same at has)
