-- ===== src/Access/Escalation/Rows.antt =====
-- Where a row that a search finds comes from.
use lcs_system.Shared.{
  ℕ, ◌==◌, ◌≡◌, refl, sym, ◌∙◌, ap, Bool, true, false, ◌&&◌, ◌||◌, not, List, [], ◌∷◌, ◌++◌, map,
  where_rows, is_empty, All, Text, text_eqb, text_eqb→eq, strip, lstrip, rstrip, rstrip_cons,
  is_space, arith, inl, inr, Bool-cases,
}
use lcs_system.Access.{
  Assignment, any, mem, given_codes, distinct, set_user_roles, has_role, role_of, user_role_codes,
}
use lcs_system.Access.Governed.Rows.{any-imp}

module _ {ℓ} {A : Type ℓ} where
  pub append-any :
      (p : A → Bool) (xs ys : List A) → any p (xs ++ ys) ≡ true → (any p xs || any p ys) ≡ true
  append-any p [] ys h = h
  append-any p (x ∷ xs) ys h = ground (arith, append-any p xs ys)

  pub where_rows-any :
      (p q : A → Bool) (xs : List A) → any p (where_rows q xs) ≡ true → any p xs ≡ true
  where_rows-any p q [] h = h
  where_rows-any p q (x ∷ xs) h = ground (arith, h, where_rows-any p q xs)

  pub map-any {κ} :
      {B : Type κ} (p : B → Bool) (f : A → B) (xs : List A)
      → any p (map f xs) ≡ true
      → any (λ x. p (f x)) xs ≡ true
  map-any p f [] h = h
  map-any p f (x ∷ xs) h = ground (arith, h, map-any p f xs)

pub any-const :
    (b : Bool) (p : Text → Bool) (ts : List Text) → any (λ t. b && p t) ts ≡ true → b ≡ true
any-const b p [] h = cc
any-const b p (t ∷ ts) h = ground (arith, any-const b p ts, h)

pub distinct-any : (p : Text → Bool) (ts : List Text) → any p (distinct ts) ≡ true → any p ts ≡ true
distinct-any p [] h = h
distinct-any p (t ∷ ts) h = elim (Bool-cases (p t)) [
  | inl e ↦ rw e refl
  | inr e ↦
      let rest = where_rows-any p (λ d. not (text_eqb d t)) (distinct ts) (ground (arith, h, e)) in
      ground (arith, distinct-any p ts rest)
]

-- Codes that are stripped already are given as they are.
pub given_codes-mem :
    (t : Text) (ts : List Text)
    → All (λ s. strip s ≡ s) ts
    → mem t (given_codes ts) ≡ true
    → mem t ts ≡ true
given_codes-mem t [] tidy h = h
given_codes-mem t (s ∷ ts) tidy h = elim (Bool-cases (is_empty (strip s))) [
  | inl e ↦ ground (arith, given_codes-mem t ts tidy.1 (rw e at h))
  | inr e ↦
      let h' : (text_eqb (strip s) t || mem t (given_codes ts)) ≡ true = rw e at h in
      ground (arith, rw tidy.0 at h', given_codes-mem t ts tidy.1)
]

-- Stripping twice is stripping once.
rstrip-rstrip_cons : (c : ℕ) (s : Text) → rstrip s ≡ s → rstrip (rstrip_cons c s) ≡ rstrip_cons c s
rstrip-rstrip_cons c [] h = elim (Bool-cases (is_space c)) [
  | inl e ↦ rw e refl
  | inr e ↦ rw (e, e) refl
]
rstrip-rstrip_cons c (d ∷ s) h = rw h refl

rstrip_twice : (s : Text) → rstrip (rstrip s) ≡ rstrip s
rstrip_twice [] = refl
rstrip_twice (c ∷ s) = rstrip-rstrip_cons c (rstrip s) (rstrip_twice s)

lstrip-rstrip_cons :
    (c : ℕ) (s : Text) → is_space c ≡ false → lstrip (rstrip_cons c s) ≡ rstrip_cons c s
lstrip-rstrip_cons c [] h = rw (h, h) refl
lstrip-rstrip_cons c (d ∷ s) h = rw h refl

lstrip-strip : (s : Text) → lstrip (strip s) ≡ strip s
lstrip-strip [] = refl
lstrip-strip (c ∷ s) = elim (Bool-cases (is_space c)) [
  | inl e ↦ rw e (lstrip-strip s)
  | inr e ↦ rw e (lstrip-rstrip_cons c (rstrip s) e)
]

pub strip_twice : (s : Text) → strip (strip s) ≡ strip s
strip_twice s = ap rstrip (lstrip-strip s) ∙ rstrip_twice (lstrip s)

pub given_codes-nonblank :
    (t : Text) (ts : List Text) → mem t (given_codes ts) ≡ true → is_empty (strip t) ≡ false
given_codes-nonblank t [] h = cc
given_codes-nonblank t (s ∷ ts) h = elim (Bool-cases (is_empty (strip s))) [
  | inl e ↦ given_codes-nonblank t ts (rw e at h)
  | inr e ↦
      let h' : (text_eqb (strip s) t || mem t (given_codes ts)) ≡ true = rw e at h in
      elim (Bool-cases (text_eqb (strip s) t)) [
        | inl q ↦ rw (sym (text_eqb→eq (strip s) t q), strip_twice s) e
        | inr q ↦ given_codes-nonblank t ts (ground (arith, h', q))
      ]
]

-- A role of a user, after the roles of one are replaced, is among the new ones or was had.
pub set_user_roles-has_role :
    (key k : ℕ) (role : Text) (roles : List Text) (rows : List Assignment)
    → has_role k role (set_user_roles key roles rows) ≡ true
    → ((key == k && mem role (given_codes roles)) || has_role k role rows) ≡ true
unfolding set_user_roles
set_user_roles-has_role key k role roles rows h =
    let assigned : Text → Assignment = λ c. record { user_id = key; role_code = c } in
    let new = map assigned (distinct (given_codes roles)) in
    let kept = where_rows (λ a. not (a.user_id == key)) rows in
    elim (Bool-cases (has_role k role kept)) [
      | inl e ↦ ground (arith, where_rows-any (role_of k role) (λ a. not (a.user_id == key)) rows e)
      | inr e ↦
          let found : any (role_of k role) new ≡ true =
            ground (arith, append-any (role_of k role) new kept h, e) in
          let there = map-any (role_of k role) assigned (distinct (given_codes roles)) found in
          let same =
            any-const (key == k) (λ c. text_eqb c role) (distinct (given_codes roles)) there in
          let given =
            any-imp (λ c. role_of k role (assigned c)) (λ s. text_eqb s role)
              (λ c r. ground (arith, r)) (distinct (given_codes roles)) there in
          ground (arith, same, distinct-any (λ s. text_eqb s role) (given_codes roles) given)
    ]

pub user_role_codes-All :
    (key : ℕ) (rows : List Assignment)
    → All (λ a. strip a.role_code ≡ a.role_code) rows
    → All (λ s. strip s ≡ s) (user_role_codes key rows)
user_role_codes-All key [] h = tt
user_role_codes-All key (a ∷ rows) h = elim (Bool-cases (a.user_id == key)) [
  | inl e ↦ rw e (h.0, user_role_codes-All key rows h.1)
  | inr e ↦ rw e (user_role_codes-All key rows h.1)
]
