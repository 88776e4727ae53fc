-- ===== src/Access/Escalation/Resolved.antt =====
-- What the check of a role's permissions has asked of the caller.
use lcs_system.Shared.{
  ◌≡◌, refl, sym, ◌∙◌, Bool, true, false, ◌&&◌, ◌||◌, not, List, [], ◌∷◌, ◌++◌, where_rows,
  is_empty, Outcome, ok, raise_if, access_denied, >>-passed, text_eqb_refl, DomainError, Text,
  strip, text_eqb, text_eqb→eq, arith, inl, inr, Bool-cases,
}
use lcs_system.Access.{Grant, mem, wildcard, given_codes, role_permission_codes}
use lcs_system.Access.Permissions.{
  Catalogue, grants_of, flat_map, is_page, covered_codes, chosen_codes, compile_role_permissions,
  resolve_role_codes,
}
use lcs_system.Access.Guards.{
  Actor, holds_all, assert_can_grant_permissions, assert_can_assign_role, for_each,
}
use lcs_system.Access.Governed.{has_grant}
use lcs_system.Access.Governed.Rows.{
  any-append_left, any-append_right, any-where_rows, IsTrimmed, mem-given_codes,
}
use lcs_system.Access.Escalation.Rows.{append-any, given_codes-nonblank, where_rows-any}

-- A code that a list of codes brings, by the first of them that brings it.
pub flat_map-mem :
    (t : Text) (f : Text → List Text) (ts : List Text)
    → mem t (flat_map f ts) ≡ true
    → (s : Text) × (mem s ts ≡ true) × (mem t (f s) ≡ true)
flat_map-mem t f [] h = cc
flat_map-mem t f (s ∷ ts) h = elim (Bool-cases (mem t (f s))) [
  | inl e ↦ (s, ground (arith, text_eqb_refl s), e)
  | inr e ↦
      let (r, there, brought) =
        flat_map-mem t f ts
          (ground (arith, append-any (λ x. text_eqb x t) (f s) (flat_map f ts) h, e)) in
      (r, ground (arith, there), brought)
]

pub mem-flat_map :
    (t : Text) (f : Text → List Text) (s : Text) (ts : List Text)
    → mem s ts ≡ true
    → mem t (f s) ≡ true
    → mem t (flat_map f ts) ≡ true
mem-flat_map t f s [] h e = cc
mem-flat_map t f s (r ∷ ts) h e = elim (Bool-cases (text_eqb r s)) [
  | inl q ↦ any-append_left (λ x. text_eqb x t) (f r) (flat_map f ts) (rw (text_eqb→eq r s q) e)
  | inr q ↦
      any-append_right (λ x. text_eqb x t) (f r) (flat_map f ts)
        (mem-flat_map t f s ts (ground (arith, h, q)) e)
]

pub where_rows-passes :
    (t : Text) (q : Text → Bool) (ts : List Text)
    → mem t ts ≡ true
    → q t ≡ true
    → mem t (where_rows q ts) ≡ true
where_rows-passes t q ts h e =
    any-where_rows (λ s. text_eqb s t) q (λ s r. rw (text_eqb→eq s t r) e) ts h

pub where_rows-given :
    (t : Text) (q : Text → Bool) (ts : List Text) → mem t (where_rows q ts) ≡ true → mem t ts ≡ true
where_rows-given t q ts h = where_rows-any (λ s. text_eqb s t) q ts h

module _ (c : Catalogue) where
  -- A code that is given is stored: as it stands, or by a chosen page that brings it.
  mem-covered_codes :
      (code : Text) (submitted : List Text)
      → ((t : Text) → mem t submitted ≡ true → is_empty (strip t) ≡ false)
      → mem code submitted ≡ true
      → mem code
          (covered_codes c (where_rows (λ t. not (is_empty (strip t))) (chosen_codes c submitted)))
        ≡ true
  mem-covered_codes code submitted nonblank h =
      let chosen = where_rows (is_page c) submitted in
      let derived = flat_map (grants_of c.page_grants) chosen in
      let rest = where_rows (λ t. not (is_page c t) && not (mem t derived)) submitted in
      let is_code : Text → Bool = λ s. text_eqb s code in
      elim (Bool-cases (is_page c code)) [
        | inl page ↦ any-append_left is_code _ _ (
            where_rows-passes code (λ t. not (is_empty (strip t))) (chosen ++ rest)
              (any-append_left is_code chosen rest
                (where_rows-passes code (is_page c) submitted h page))
              (rw (nonblank code h) refl))
        | inr other ↦ elim (Bool-cases (mem code derived)) [
          | inr direct ↦ any-append_left is_code _ _ (
              where_rows-passes code (λ t. not (is_empty (strip t))) (chosen ++ rest)
                (any-append_right is_code chosen rest (
                  where_rows-passes code (λ t. not (is_page c t) && not (mem t derived)) submitted h
                    (rw (other, direct) refl)))
                (rw (nonblank code h) refl))
          | inl brought ↦
              let (page, there, brings) =
                flat_map-mem code (grants_of c.page_grants) chosen brought in
              let given = where_rows-given page (is_page c) submitted there in
              any-append_right is_code _ _ (
                any-append_left is_code _ _ (
                  mem-flat_map code (grants_of c.page_grants) page _
                    (where_rows-passes page (λ t. not (is_empty (strip t))) (chosen ++ rest)
                      (any-append_left (λ s. text_eqb s page) chosen rest there)
                      (rw (nonblank page given) refl))
                    brings))
        ]
      ]

  mem-compile_role_permissions :
      (code : Text) (submitted : List Text)
      → ((t : Text) → mem t submitted ≡ true → is_empty (strip t) ≡ false)
      → mem code submitted ≡ true
      → mem code (compile_role_permissions c (chosen_codes c submitted)) ≡ true
  unfolding compile_role_permissions
  mem-compile_role_permissions code submitted nonblank h =
      any-append_left (λ s. text_eqb s code) _ _ (mem-covered_codes code submitted nonblank h)

  pub mem-resolve_role_codes :
      (code : Text) (cs : List Text)
      → IsTrimmed code
      → mem code cs ≡ true
      → (mem code (resolve_role_codes c cs) || mem wildcard (resolve_role_codes c cs)) ≡ true
  unfolding resolve_role_codes
  mem-resolve_role_codes code cs trimmed h =
      let given = mem-given_codes code trimmed cs h in
      elim (Bool-cases (mem wildcard (given_codes cs))) [
        | inl all ↦ ground (arith, text_eqb_refl wildcard, all)
        | inr listed ↦ rw listed (
            ground (
              arith,
              mem-compile_role_permissions code (given_codes cs) (λ t. given_codes-nonblank t cs)
                  given,
            ))
      ]

holds_all-mem :
    (actor : Actor) (t : Text) (cs : List Text)
    → holds_all actor cs ≡ true
    → mem t cs ≡ true
    → actor.has_permission t ≡ true
holds_all-mem actor t [] all h = cc
holds_all-mem actor t (s ∷ cs) all h = elim (Bool-cases (text_eqb s t)) [
  | inl e ↦ rw (sym (text_eqb→eq s t e)) (ground (arith, all))
  | inr e ↦ holds_all-mem actor t cs (ground (arith, all)) (ground (arith, h, e))
]

pub mem-role_permission_codes :
    (role code : Text) (rows : List Grant)
    → mem code (role_permission_codes role rows) ≡ has_grant role code rows
mem-role_permission_codes role code [] = refl
mem-role_permission_codes role code (g ∷ rows) =
    ground (arith, mem-role_permission_codes role code rows)

pub for_each-mem :
    (check : Text → Outcome (Unit {0})) (t : Text) (ts : List Text)
    → for_each check ts ≡ ok tt
    → mem t ts ≡ true
    → check t ≡ ok tt
for_each-mem check t [] e h = cc
for_each-mem check t (s ∷ ts) e h =
    let (first, later) = >>-passed (check s) (for_each check ts) e in
    elim (Bool-cases (text_eqb s t)) [
      | inl q ↦ rw (sym (text_eqb→eq s t q)) first
      | inr q ↦ for_each-mem check t ts later (ground (arith, h, q))
    ]

raise_if-passed : (refused : Bool) (e : DomainError) → raise_if refused e ≡ ok tt → refused ≡ false
raise_if-passed true e h = cc
raise_if-passed false e h = refl

-- A caller who may grant a list of codes has each of those it resolves to.
pub assert_can_grant_permissions-holds :
    (c : Catalogue) (actor : Actor) (code : Text) (cs : List Text)
    → actor.is_platform_admin ≡ false
    → assert_can_grant_permissions c actor cs ≡ ok tt
    → mem code (resolve_role_codes c cs) ≡ true
    → actor.has_permission code ≡ true
unfolding assert_can_grant_permissions
assert_can_grant_permissions-holds c actor code cs not_admin e h =
    let codes = resolve_role_codes c cs in
    let all : holds_all actor codes ≡ true = ground (
      arith,
      not_admin,
      raise_if-passed (not actor.is_platform_admin && not (holds_all actor codes)) access_denied e,
    ) in
    holds_all-mem actor code codes all h

-- A caller who may assign a role has each of its permissions, or the wildcard.
pub assert_can_assign_role-holds :
    (c : Catalogue) (actor : Actor) (role code : Text) (grants : List Grant)
    → actor.is_platform_admin ≡ false
    → IsTrimmed code
    → has_grant role code grants ≡ true
    → assert_can_assign_role c actor grants role ≡ ok tt
    → (actor.has_permission code || actor.has_permission wildcard) ≡ true
unfolding assert_can_assign_role
assert_can_assign_role-holds c actor role code grants not_admin trimmed granted e =
    let perms = role_permission_codes role grants in
    let given = mem-role_permission_codes role code grants ∙ granted in
    let stored = mem-resolve_role_codes c code perms trimmed given in
    elim (Bool-cases (mem code (resolve_role_codes c perms))) [
      | inl here ↦ rw (assert_can_grant_permissions-holds c actor code perms not_admin e here) refl
      | inr there ↦
          let all : mem wildcard (resolve_role_codes c perms) ≡ true =
            ground (arith, stored, there) in
          ground (arith, assert_can_grant_permissions-holds c actor wildcard perms not_admin e all)
    ]
