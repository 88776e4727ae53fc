-- ===== src/Access/Escalation/Granted.antt =====
-- The codes that the calls on roles store.
use lcs_system.Shared.{
  ◌≡◌, refl, sym, ◌∙◌, ap, Bool, true, false, ◌&&◌, ◌||◌, not, List, [], ◌∷◌, ◌++◌, where_rows,
  is_empty, All, Text, strip, text_eqb, text_eqb→eq, arith, inl, inr, ◌⊎◌, Bool-cases,
}
use lcs_system.Access.{
  Grant, mem, wildcard, given_codes, role_permission_codes, set_role_permissions,
}
use lcs_system.Access.Permissions.{
  Catalogue, grants_of, flat_map, is_page, covered_codes, chosen_codes, compile_role_permissions,
  resolve_role_codes,
}
use lcs_system.Access.Roles.{stored_codes}
use lcs_system.Access.Governed.{has_grant}
use lcs_system.Access.Governed.Rows.{any-append_left, any-append_right}
use lcs_system.Access.Escalation.Rows.{append-any, given_codes-mem}
use lcs_system.Access.Escalation.Resolved.{
  where_rows-passes, where_rows-given, flat_map-mem, mem-flat_map,
}
use lcs_system.Access.Escalation.Expanded.{
  IsTidyCatalogue, is_key, picked, picked-mem, chosen_codes-mem, covered_codes-FromEither,
  resolve_role_codes-All, resolve_role_codes-mem, set_role_permissions-has_grant,
}
use lcs_system.Access.Escalation.Lists.{where_rows-mem, FromEither, given_codes-append}

pub role_permission_codes-All :
    (role : Text) (rows : List Grant)
    → All (λ g. strip g.code ≡ g.code) rows
    → All (λ s. strip s ≡ s) (role_permission_codes role rows)
role_permission_codes-All role [] h = tt
role_permission_codes-All role (g ∷ rows) h = elim (Bool-cases (text_eqb g.role_code role)) [
  | inl e ↦ rw e (h.0, role_permission_codes-All role rows h.1)
  | inr e ↦ rw e (role_permission_codes-All role rows h.1)
]

module _ (c : Catalogue) where
  -- A code that is picked out of two lists and is not in the first is picked out of the second.
  chosen_codes-part :
      (s : Text) (xs ys : List Text)
      → mem s (chosen_codes c (xs ++ ys)) ≡ true
      → mem s ys ≡ true
      → mem s (chosen_codes c ys) ≡ true
  chosen_codes-part s xs ys h there =
      let f = grants_of c.page_grants in
      let is_s : Text → Bool = λ r. text_eqb r s in
      let derived : List Text → List Text = λ zs. flat_map f (where_rows (is_page c) zs) in
      let direct : List Text → Text → Bool =
        λ zs t. not (is_page c t) && not (mem t (derived zs)) in
      elim (Bool-cases (is_page c s)) [
        | inl page ↦ any-append_left is_s _ _ (where_rows-passes s (is_page c) ys there page)
        | inr other ↦
            let both = where_rows (is_page c) (xs ++ ys) in
            elim (Bool-cases (mem s both)) [
              | inl e ↦ cc (where_rows-mem s (is_page c) (xs ++ ys) e, other)
              | inr e ↦
                  let passes = where_rows-mem s (direct (xs ++ ys)) (xs ++ ys) (
                    ground (
                      arith,
                      append-any is_s both (where_rows (direct (xs ++ ys)) (xs ++ ys)) h,
                      e,
                    )) in
                  elim (Bool-cases (mem s (derived ys))) [
                    | inr free ↦
                        any-append_right is_s (where_rows (is_page c) ys) _
                          (where_rows-passes s (direct ys) ys there (rw (other, free) refl))
                    | inl brought ↦
                        let (p, chosen, brings) =
                          flat_map-mem s f (where_rows (is_page c) ys) brought in
                        let also : mem p both ≡ true =
                          where_rows-passes p (is_page c) (xs ++ ys)
                            (any-append_right (λ r. text_eqb r p) xs ys
                              (where_rows-given p (is_page c) ys chosen))
                            (where_rows-mem p (is_page c) ys chosen) in
                        let more = mem-flat_map s f p both also brings in
                        let out : mem s (derived (xs ++ ys)) ≡ false = ground (arith, passes) in
                        cc (out, more)
                  ]
            ]
      ]

  picked-FromEither :
      (had cs : List Text)
      → All (λ s. strip s ≡ s) had
      → FromEither (picked c (had ++ cs)) had (picked c cs)
  picked-FromEither had cs tidy s h =
      let nonblank : Text → Bool = λ t. not (is_empty (strip t)) in
      let passes = where_rows-mem s nonblank (chosen_codes c (given_codes (had ++ cs))) h in
      let chosen : mem s (chosen_codes c (given_codes had ++ given_codes cs)) ≡ true =
        ap (λ zs. mem s (chosen_codes c zs)) (sym (given_codes-append had cs))
        ∙ where_rows-given s nonblank (chosen_codes c (given_codes (had ++ cs))) h in
      let given =
        append-any (λ r. text_eqb r s) (given_codes had) (given_codes cs)
          (chosen_codes-mem c s (given_codes had ++ given_codes cs) chosen) in
      elim (Bool-cases (mem s (given_codes had))) [
        | inl e ↦ rw (given_codes-mem s had tidy e) refl
        | inr e ↦
            let new =
              chosen_codes-part s (given_codes had) (given_codes cs) chosen
                (ground (arith, given, e)) in
            ground
              (arith, where_rows-passes s nonblank (chosen_codes c (given_codes cs)) new passes)
      ]

  covered-resolved :
      (code : Text) (cs : List Text)
      → mem wildcard (given_codes cs) ≡ false
      → mem code (covered_codes c (picked c cs)) ≡ true
      → mem code (resolve_role_codes c cs) ≡ true
  unfolding resolve_role_codes compile_role_permissions
  covered-resolved code cs absent h =
      rw absent (any-append_left (λ s. text_eqb s code) (covered_codes c (picked c cs)) _ h)

  second_lacks :
      (had cs : List Text)
      → mem wildcard (given_codes (had ++ cs)) ≡ false
      → mem wildcard (given_codes cs) ≡ false
  second_lacks had cs absent = elim (Bool-cases (mem wildcard (given_codes cs))) [
    | inr e ↦ e
    | inl e ↦
        let there =
          any-append_right (λ s. text_eqb s wildcard) (given_codes had) (given_codes cs) e in
        cc (absent, ap (mem wildcard) (given_codes-append had cs) ∙ there)
  ]

  module _ (code : Text) (plain : is_key c code ≡ false)
      (named : text_eqb wildcard code ≡ false) where
    -- What follows from a part of the codes of a role follows from them.
    pub resolved_part :
        (had part : List Text)
        → All (λ s. strip s ≡ s) part
        → ((s : Text) → mem s part ≡ true → mem s had ≡ true)
        → mem code (resolve_role_codes c part) ≡ true
        → mem code (covered_codes c had) ≡ true
    resolved_part had part tidy within h =
        let (_, follows) = resolve_role_codes-mem c code part plain named h in
        let from : FromEither (picked c part) had [] =
          λ s e. ground (arith, within s (given_codes-mem s part tidy (picked-mem c s part e))) in
        ground (arith, covered_codes-FromEither c (picked c part) had [] from code follows)

    -- What two lists resolve to together follows from the first, or the second resolves to it.
    pub resolved_together :
        (had cs : List Text)
        → All (λ s. strip s ≡ s) had
        → mem code (resolve_role_codes c (had ++ cs)) ≡ true
        → (mem code (covered_codes c had) || mem code (resolve_role_codes c cs)) ≡ true
    resolved_together had cs tidy h =
        let (no_wildcard, follows) = resolve_role_codes-mem c code (had ++ cs) plain named h in
        let from =
          covered_codes-FromEither c (picked c (had ++ cs)) had (picked c cs)
            (picked-FromEither had cs tidy) code follows in
        elim (Bool-cases (mem code (covered_codes c had))) [
          | inl e ↦ rw e refl
          | inr e ↦
              let absent : mem wildcard (given_codes cs) ≡ false =
                second_lacks had cs no_wildcard in
              let new : mem code (covered_codes c (picked c cs)) ≡ true = ground (arith, from, e) in
              ground (arith, covered-resolved code cs absent new)
        ]

    module _ (tidy : IsTidyCatalogue c) where
      stored-resolved :
          (cs : List Text)
          → mem code (given_codes (stored_codes c cs)) ≡ true
          → mem code (resolve_role_codes c cs) ≡ true
      stored-resolved cs h = elim (Bool-cases (mem wildcard cs)) [
        | inl e ↦
            let found : (text_eqb wildcard code || false) ≡ true = rw e at h in
            let same : text_eqb wildcard code ≡ true = ground (arith, found) in cc (same, named)
        | inr e ↦
            given_codes-mem code (resolve_role_codes c cs) (resolve_role_codes-All c tidy cs)
              (rw e at h)
      ]

      -- A grant, after the codes of a role are stored, was there or is resolved from those codes.
      pub stored-has_grant :
          (role r : Text) (cs : List Text) (rows : List Grant)
          → has_grant role code (set_role_permissions r (stored_codes c cs) rows) ≡ true
          → (has_grant role code rows ≡ true)
            ⊎ ((r ≡ role) × (mem code (resolve_role_codes c cs) ≡ true))
      stored-has_grant role r cs rows h =
          let from = set_role_permissions-has_grant role r code (stored_codes c cs) rows h in
          elim (Bool-cases (has_grant role code rows)) [
            | inl e ↦ inl e
            | inr e ↦
                let new : (text_eqb r role ≡ true)
                    × (mem code (given_codes (stored_codes c cs)) ≡ true) =
                  ground (arith, from, e) in
                inr (text_eqb→eq r role new.0, stored-resolved cs new.1)
          ]
