-- ===== src/Access/Escalation/Expanded.antt =====
-- Where a code that is stored for a role comes from.
use lcs_system.Shared.{
  ◌≡◌, refl, Bool, true, false, ◌&&◌, ◌||◌, not, List, [], ◌∷◌, map, where_rows, is_empty, All,
  All-where_rows, Text, strip, text_eqb, arith, inl, inr, Bool-cases,
}
use lcs_system.Access.{Grant, any, mem, wildcard, given_codes, distinct, set_role_permissions}
use lcs_system.Access.Permissions.{
  Catalogue, grants_of, flat_map, all_in, is_page, pages_granting, implied_page, covered_codes,
  chosen_codes, compile_role_permissions, resolve_role_codes,
}
use lcs_system.Access.Governed.{grant_of, has_grant}
use lcs_system.Access.Governed.Rows.{any-imp}
use lcs_system.Access.Escalation.Rows.{append-any, where_rows-any, map-any, any-const, distinct-any}
use lcs_system.Access.Escalation.Resolved.{flat_map-mem, where_rows-given}
use lcs_system.Access.Escalation.Lists.{
  All-append, All-flat_map, given_codes-All, FromEither, flat_map-FromEither, where_rows-FromEither,
  append-FromEither,
}

-- No code of the catalogue has white space around it.
unfoldable pub IsTidyCatalogue : Catalogue → Type 0
IsTidyCatalogue c = All (λ p. (strip p.0 ≡ p.0) × All (λ t. strip t ≡ t) p.1) c.page_grants

-- A code that brings others, or none.
abbrev pub is_key : Catalogue → Text → Bool
is_key c code = any (λ p. text_eqb p.0 code) c.page_grants

grants_of-All :
    (P : Text → Type 0) (table : List (Text × List Text)) (code : Text)
    → All (λ p. P p.0 × All P p.1) table
    → All P (grants_of table code)
grants_of-All P [] code h = tt
grants_of-All P ((page, given) ∷ rest) code h = elim (Bool-cases (text_eqb page code)) [
  | inl e ↦ rw e h.0.1
  | inr e ↦ rw e (grants_of-All P rest code h.1)
]

pages_granting-All :
    (P : Text → Type 0) (table : List (Text × List Text)) (code : Text)
    → All (λ p. P p.0 × All P p.1) table
    → All P (pages_granting table code)
pages_granting-All P [] code h = tt
pages_granting-All P ((page, given) ∷ rest) code h = elim (Bool-cases (mem code given)) [
  | inl e ↦ rw e (h.0.0, pages_granting-All P rest code h.1)
  | inr e ↦ rw e (pages_granting-All P rest code h.1)
]

pages_granting-mem :
    (t : Text) (table : List (Text × List Text)) (code : Text)
    → mem t (pages_granting table code) ≡ true
    → any (λ p. text_eqb p.0 t) table ≡ true
pages_granting-mem t [] code h = cc
pages_granting-mem t ((page, given) ∷ rest) code h = elim (Bool-cases (mem code given)) [
  | inl e ↦
      let h' : (text_eqb page t || mem t (pages_granting rest code)) ≡ true = rw e at h in
      ground (arith, pages_granting-mem t rest code, h')
  | inr e ↦ ground (arith, pages_granting-mem t rest code (rw e at h))
]

module _ (c : Catalogue) where
  implied_page-All :
      (P : Text → Type 0) (covered pages : List Text)
      → All P pages
      → All P (implied_page c covered pages)
  implied_page-All P covered [] h = tt
  implied_page-All P covered (page ∷ rest) h =
      elim (Bool-cases (all_in (grants_of c.page_grants page) covered)) [
        | inl e ↦ rw e (h.0, tt)
        | inr e ↦ rw e (implied_page-All P covered rest h.1)
      ]

  implied_page-mem :
      (t : Text) (covered pages : List Text)
      → mem t (implied_page c covered pages) ≡ true
      → mem t pages ≡ true
  implied_page-mem t covered [] h = cc
  implied_page-mem t covered (page ∷ rest) h =
      elim (Bool-cases (all_in (grants_of c.page_grants page) covered)) [
        | inl e ↦ ground (arith, rw e at h)
        | inr e ↦ ground (arith, implied_page-mem t covered rest (rw e at h))
      ]

  pub chosen_codes-mem :
      (t : Text) (submitted : List Text)
      → mem t (chosen_codes c submitted) ≡ true
      → mem t submitted ≡ true
  chosen_codes-mem t submitted h =
      let chosen = where_rows (is_page c) submitted in
      let derived = flat_map (grants_of c.page_grants) chosen in
      let direct : Text → Bool = λ t. not (is_page c t) && not (mem t derived) in
      elim (Bool-cases (mem t chosen)) [
        | inl e ↦ where_rows-given t (is_page c) submitted e
        | inr e ↦ where_rows-given t direct submitted (
            ground
              (arith, append-any (λ s. text_eqb s t) chosen (where_rows direct submitted) h, e))
      ]

  -- A code that follows from a list follows from one of two that make it up.
  -- A code that follows from a list follows from one of two that make it up.
  pub covered_codes-FromEither :
      (zs xs ys : List Text)
      → FromEither zs xs ys
      → FromEither (covered_codes c zs) (covered_codes c xs) (covered_codes c ys)
  covered_codes-FromEither zs xs ys from =
      let f = grants_of c.page_grants in
      let declared = flat_map-FromEither f zs xs ys from in
      append-FromEither zs xs ys _ _ _ from (
        append-FromEither (flat_map f zs) (flat_map f xs) (flat_map f ys) _ _ _ declared (
          flat_map-FromEither f _ _ _ (
            where_rows-FromEither (is_page c) (flat_map f zs) (flat_map f xs) (flat_map f ys)
              declared)))

  -- The codes that are resolved from a payload without the wildcard.
  abbrev pub picked : List Text → List Text
  picked cs = where_rows (λ t. not (is_empty (strip t))) (chosen_codes c (given_codes cs))

  pub picked-mem :
      (t : Text) (cs : List Text) → mem t (picked cs) ≡ true → mem t (given_codes cs) ≡ true
  picked-mem t cs h =
      chosen_codes-mem t (given_codes cs)
        (where_rows-given t (λ t. not (is_empty (strip t))) (chosen_codes c (given_codes cs)) h)

  All-chosen_codes :
      (P : Text → Type 0) (submitted : List Text)
      → All P submitted
      → All P (chosen_codes c submitted)
  All-chosen_codes P submitted h =
      All-append P _ _ (All-where_rows P (is_page c) submitted h) (All-where_rows P _ submitted h)

  covered_codes-All :
      (P : Text → Type 0)
      → All (λ p. P p.0 × All P p.1) c.page_grants
      → (ts : List Text) → All P ts
      → All P (covered_codes c ts)
  covered_codes-All P tidy ts h =
      let brought : (xs : List Text) → All P (flat_map (grants_of c.page_grants) xs) =
        All-flat_map P (grants_of c.page_grants) (λ t. grants_of-All P c.page_grants t tidy) in
      All-append P ts _ h (All-append P _ _ (brought ts) (brought _))

  compile_role_permissions-All :
      (P : Text → Type 0)
      → All (λ p. P p.0 × All P p.1) c.page_grants
      → (ts : List Text) → All P ts
      → All P (compile_role_permissions c ts)
  unfolding compile_role_permissions
  compile_role_permissions-All P tidy ts h =
      All-append P _ _
        (covered_codes-All P tidy _ (All-where_rows P (λ t. not (is_empty (strip t))) ts h))
        (All-flat_map P _ (λ t. implied_page-All P _ _ (pages_granting-All P c.page_grants t tidy))
          _)

  pub resolve_role_codes-All :
      IsTidyCatalogue c → (cs : List Text) → All (λ t. strip t ≡ t) (resolve_role_codes c cs)
  unfolding resolve_role_codes IsTidyCatalogue
  resolve_role_codes-All tidy cs = elim (Bool-cases (mem wildcard (given_codes cs))) [
    | inl e ↦ rw e (refl, tt)
    | inr e ↦ rw e (
        compile_role_permissions-All (λ t. strip t ≡ t) tidy (chosen_codes c (given_codes cs))
          (All-chosen_codes (λ t. strip t ≡ t) (given_codes cs) (given_codes-All cs)))
  ]

  -- A code that is no key is resolved from what follows from the payload.
  mem-compile_covered :
      (t : Text) (ts : List Text)
      → is_key c t ≡ false
      → mem t (compile_role_permissions c ts) ≡ true
      → mem t (covered_codes c (where_rows (λ t. not (is_empty (strip t))) ts)) ≡ true
  unfolding compile_role_permissions
  mem-compile_covered t ts plain h =
      let covered = covered_codes c (where_rows (λ t. not (is_empty (strip t))) ts) in
      elim (Bool-cases (mem t covered)) [
        | inl e ↦ e
        | inr e ↦
            let implied : Text → List Text =
              λ code. implied_page c covered (pages_granting c.page_grants code) in
            let rest = where_rows (λ t. not (is_page c t)) covered in
            let (s, _, there) = flat_map-mem t implied rest (
              ground
                (arith, append-any (λ s. text_eqb s t) covered (flat_map implied rest) h, e)) in
            cc (
              plain,
              pages_granting-mem t c.page_grants s
                  (implied_page-mem t covered (pages_granting c.page_grants s) there),
            )
      ]

  pub resolve_role_codes-mem :
      (t : Text) (cs : List Text)
      → is_key c t ≡ false
      → text_eqb wildcard t ≡ false
      → mem t (resolve_role_codes c cs) ≡ true
      → (mem wildcard (given_codes cs) ≡ false) × (mem t (covered_codes c (picked cs)) ≡ true)
  unfolding resolve_role_codes
  resolve_role_codes-mem t cs plain named h = elim (Bool-cases (mem wildcard (given_codes cs))) [
    | inl e ↦
        let found : (text_eqb wildcard t || false) ≡ true = rw e at h in
        let same : text_eqb wildcard t ≡ true = ground (arith, found) in cc (same, named)
    | inr e ↦ (e, mem-compile_covered t (chosen_codes c (given_codes cs)) plain (rw e at h))
  ]

-- A grant, after those of one role are replaced, is among the new ones or was there.
pub set_role_permissions-has_grant :
    (role r code : Text) (cs : List Text) (rows : List Grant)
    → has_grant role code (set_role_permissions r cs rows) ≡ true
    → ((text_eqb r role && mem code (given_codes cs)) || has_grant role code rows) ≡ true
unfolding set_role_permissions
set_role_permissions-has_grant role r code cs rows h =
    let granted : Text → Grant = λ c. record { role_code = r; code = c } in
    let new = map granted (distinct (given_codes cs)) in
    let kept = where_rows (λ g. not (text_eqb g.role_code r)) rows in
    elim (Bool-cases (has_grant role code kept)) [
      | inl e ↦
          ground
            (arith, where_rows-any (grant_of role code) (λ g. not (text_eqb g.role_code r)) rows e)
      | inr e ↦
          let found : any (grant_of role code) new ≡ true =
            ground (arith, append-any (grant_of role code) new kept h, e) in
          let there = map-any (grant_of role code) granted (distinct (given_codes cs)) found in
          let same =
            any-const (text_eqb r role) (λ c. text_eqb c code) (distinct (given_codes cs)) there in
          let given =
            any-imp (λ c. grant_of role code (granted c)) (λ s. text_eqb s code)
              (λ c r. ground (arith, r)) (distinct (given_codes cs)) there in
          ground (arith, same, distinct-any (λ s. text_eqb s code) (given_codes cs) given)
    ]
