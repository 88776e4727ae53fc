-- ===== src/Access/Governed/Rows.antt =====
-- Searches of the tables after rows are added, changed and deleted.
use lcs_system.Shared.{
  ℕ, ◌==◌, ◌≡◌, refl, sym, ◌∙◌, ap, Bool, true, false, ◌&&◌, not, List, [], ◌∷◌, ◌++◌, map,
  where_rows, is_empty, Text, text_eqb, text_eqb→eq, text_eqb_refl, strip, arith, inl, inr,
  Bool-cases,
}
use lcs_system.Auth.{User}
use lcs_system.Access.{
  Assignment, Grant, any, mem, is_active, active_user, role_of, has_role, users_with_role,
  user_role_codes, given_codes, distinct, set_user_roles, set_role_permissions, super_admin_role,
  wildcard,
}
use lcs_system.Access.Accounts.{modify_user}
use lcs_system.Access.Governed.{grant_of, has_grant}

module _ {ℓ} {A : Type ℓ} where
  pub any-append_left : (p : A → Bool) (xs ys : List A) → any p xs ≡ true → any p (xs ++ ys) ≡ true
  any-append_left p [] ys h = cc
  any-append_left p (x ∷ xs) ys h = ground (arith, any-append_left p xs ys)

  pub any-append_right : (p : A → Bool) (xs ys : List A) → any p ys ≡ true → any p (xs ++ ys) ≡ true
  any-append_right p [] ys h = h
  any-append_right p (x ∷ xs) ys h = ground (arith, any-append_right p xs ys h)

  pub any-where_rows :
      (p q : A → Bool)
      → ((x : A) → p x ≡ true → q x ≡ true)
      → (xs : List A) → any p xs ≡ true
      → any p (where_rows q xs) ≡ true
  any-where_rows p q imp [] h = cc
  any-where_rows p q imp (x ∷ xs) h = ground (arith, imp x, any-where_rows p q imp xs)

  pub any-imp :
      (p q : A → Bool)
      → ((x : A) → p x ≡ true → q x ≡ true)
      → (xs : List A) → any p xs ≡ true
      → any q xs ≡ true
  any-imp p q imp [] h = cc
  any-imp p q imp (x ∷ xs) h = ground (arith, imp x, any-imp p q imp xs)

  pub any-map {κ} :
      {B : Type κ} (p : B → Bool) (f : A → B) (xs : List A)
      → any (λ x. p (f x)) xs ≡ true
      → any p (map f xs) ≡ true
  any-map p f [] h = cc
  any-map p f (x ∷ xs) h = ground (arith, any-map p f xs)

other_text : (s c t : Text) → text_eqb s t ≡ true → text_eqb c t ≡ false → not (text_eqb s c) ≡ true
other_text s c t e p = elim (Bool-cases (text_eqb s c)) [
  | inl q ↦
      let same : c ≡ t = sym (text_eqb→eq s c q) ∙ text_eqb→eq s t e in
      cc (p, text_eqb_refl t, ap (λ x. text_eqb x t) same)
  | inr q ↦ rw q refl
]

mem-distinct : (t : Text) (cs : List Text) → mem t cs ≡ true → mem t (distinct cs) ≡ true
mem-distinct t [] h = cc
mem-distinct t (c ∷ cs) h = elim (Bool-cases (text_eqb c t)) [
  | inl p ↦ rw p refl
  | inr p ↦
      let rest : mem t cs ≡ true = ground (arith, p, h) in
      ground (
        arith,
        p,
        any-where_rows (λ s. text_eqb s t) (λ s. not (text_eqb s c)) (λ s e. other_text s c t e p)
            (distinct cs) (mem-distinct t cs rest),
      )
]

-- A code without white space around it.
unfoldable pub IsTrimmed : Text → Type 0
IsTrimmed t = (is_empty (strip t) ≡ false) × (strip t ≡ t)

pub mem-given_codes :
    (t : Text) → IsTrimmed t → (cs : List Text) → mem t cs ≡ true → mem t (given_codes cs) ≡ true
unfolding IsTrimmed
mem-given_codes t trimmed [] h = cc
mem-given_codes t trimmed (c ∷ cs) h = elim (Bool-cases (text_eqb c t)) [
  | inl p ↦ let same = text_eqb→eq c t p in rw (same, trimmed.0, trimmed.1, text_eqb_refl t) refl
  | inr p ↦
      let rest = mem-given_codes t trimmed cs (ground (arith, p, h)) in
      elim (Bool-cases (is_empty (strip c))) [
        | inl e ↦ rw e rest
        | inr e ↦ rw e (ground (arith, rest))
      ]
]

pub stored-mem :
    (t : Text)
    → IsTrimmed t
    → (cs : List Text) → mem t cs ≡ true
    → mem t (distinct (given_codes cs)) ≡ true
stored-mem t trimmed cs h = mem-distinct t (given_codes cs) (mem-given_codes t trimmed cs h)

pub super_admin_role-IsTrimmed : IsTrimmed super_admin_role
unfolding IsTrimmed
super_admin_role-IsTrimmed = (refl, refl)

pub wildcard-IsTrimmed : IsTrimmed wildcard
unfolding IsTrimmed
wildcard-IsTrimmed = (refl, refl)

-- The roles of one user are replaced: those of another stay, and the new ones are had.
pub has_role-other :
    (key k : ℕ) (code : Text) (roles : List Text) (rows : List Assignment)
    → (k == key) ≡ false
    → has_role k code rows ≡ true
    → has_role k code (set_user_roles key roles rows) ≡ true
unfolding set_user_roles
has_role-other key k code roles rows other h = any-append_right (role_of k code) _ _ (
    any-where_rows (role_of k code) (λ a. not (a.user_id == key)) (λ a e. ground (arith, e, other))
      rows h)

pub has_role-given :
    (key : ℕ) (code : Text) (roles : List Text) (rows : List Assignment)
    → IsTrimmed code
    → mem code roles ≡ true
    → has_role key code (set_user_roles key roles rows) ≡ true
unfolding set_user_roles
has_role-given key code roles rows trimmed h = any-append_left (role_of key code) _ _ (
    any-map (role_of key code) (λ c. record { user_id = key; role_code = c })
      (distinct (given_codes roles))
      (any-imp (λ s. text_eqb s code)
        (λ c. role_of key code (record { user_id = key; role_code = c })) (λ s e. ground (arith, e))
        (distinct (given_codes roles)) (stored-mem code trimmed roles h)))

-- The grants of one role are replaced.
pub has_grant-other :
    (role other code : Text) (cs : List Text) (rows : List Grant)
    → text_eqb role other ≡ false
    → has_grant other code rows ≡ true
    → has_grant other code (set_role_permissions role cs rows) ≡ true
unfolding set_role_permissions
has_grant-other role other code cs rows differs h = any-append_right (grant_of other code) _ _ (
    any-where_rows (grant_of other code) (λ g. not (text_eqb g.role_code role))
      (λ g e. other_text g.role_code role other (ground (arith, e)) differs) rows h)

pub has_grant-given :
    (role code : Text) (cs : List Text) (rows : List Grant)
    → IsTrimmed code
    → mem code cs ≡ true
    → has_grant role code (set_role_permissions role cs rows) ≡ true
unfolding set_role_permissions
has_grant-given role code cs rows trimmed h = any-append_left (grant_of role code) _ _ (
    any-map (grant_of role code) (λ c. record { role_code = role; code = c })
      (distinct (given_codes cs))
      (any-imp (λ s. text_eqb s code)
        (λ c. grant_of role code (record { role_code = role; code = c }))
        (λ s e. ground (arith, e, text_eqb_refl role)) (distinct (given_codes cs))
        (stored-mem code trimmed cs h)))

-- Users are changed under their keys.
pub active_user-modify :
    (key : ℕ) (f : User → User)
    → ((u : User) → (f u).id ≡ u.id)
    → (k : ℕ)
    → ((u : User) → is_active u.status ≡ true → (k == key) ≡ true → is_active (f u).status ≡ true)
    → (users : List User) → active_user k users ≡ true
    → active_user k (modify_user key f users) ≡ true
active_user-modify key f same k kept [] h = cc
active_user-modify key f same k kept (u ∷ us) h =
    ground (arith, h, same u, kept u, active_user-modify key f same k kept us)

-- A member of a role is one of its users.
pub users_with_role-found :
    (p : ℕ → Bool) (code : Text) (rows : List Assignment)
    → any p (users_with_role code rows) ≡ true
    → (k : ℕ) × (p k ≡ true) × (has_role k code rows ≡ true)
users_with_role-found p code [] h = cc
users_with_role-found p code (a ∷ rows) h =
    elim (Bool-cases (text_eqb a.role_code code && p a.user_id)) [
      | inl e ↦ (a.user_id, ground (arith, e), ground (arith, e))
      | inr e ↦
          let (k, t, found) = users_with_role-found p code rows (ground (arith, e, h)) in
          (k, t, ground (arith, found))
    ]

pub mem-user_role_codes :
    (key : ℕ) (code : Text) (rows : List Assignment)
    → mem code (user_role_codes key rows) ≡ has_role key code rows
mem-user_role_codes key code [] = refl
mem-user_role_codes key code (a ∷ rows) = ground (arith, mem-user_role_codes key code rows)
