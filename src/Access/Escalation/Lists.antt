-- ===== src/Access/Escalation/Lists.antt =====
-- Lists of codes that make up another, and what all their codes have.
use lcs_system.Shared.{
  ◌≡◌, refl, sym, ap, Bool, true, ◌||◌, List, [], ◌∷◌, ◌++◌, where_rows, is_empty, All, Text, strip,
  text_eqb, text_eqb→eq, arith, inl, inr, Bool-cases,
}
use lcs_system.Access.{mem, given_codes}
use lcs_system.Access.Permissions.{flat_map}
use lcs_system.Access.Governed.Rows.{any-append_left, any-append_right}
use lcs_system.Access.Escalation.Rows.{append-any, strip_twice}
use lcs_system.Access.Escalation.Resolved.{
  flat_map-mem, mem-flat_map, where_rows-passes, where_rows-given,
}

pub All-append : (P : Text → Type 0) (xs ys : List Text) → All P xs → All P ys → All P (xs ++ ys)
All-append P [] ys p q = q
All-append P (x ∷ xs) ys p q = (p.0, All-append P xs ys p.1 q)

pub All-flat_map :
    (P : Text → Type 0) (f : Text → List Text)
    → ((t : Text) → All P (f t))
    → (ts : List Text) → All P (flat_map f ts)
All-flat_map P f all [] = tt
All-flat_map P f all (t ∷ ts) = All-append P (f t) (flat_map f ts) (all t) (All-flat_map P f all ts)

pub where_rows-mem :
    (t : Text) (q : Text → Bool) (ts : List Text) → mem t (where_rows q ts) ≡ true → q t ≡ true
where_rows-mem t q [] h = cc
where_rows-mem t q (s ∷ ts) h = elim (Bool-cases (q s)) [
  | inr e ↦ where_rows-mem t q ts (rw e at h)
  | inl e ↦
      let h' : (text_eqb s t || mem t (where_rows q ts)) ≡ true = rw e at h in
      elim (Bool-cases (text_eqb s t)) [
        | inl same ↦ rw (sym (text_eqb→eq s t same)) e
        | inr other ↦ where_rows-mem t q ts (ground (arith, h', other))
      ]
]

pub given_codes-All : (ts : List Text) → All (λ t. strip t ≡ t) (given_codes ts)
given_codes-All [] = tt
given_codes-All (t ∷ ts) = elim (Bool-cases (is_empty (strip t))) [
  | inl e ↦ rw e (given_codes-All ts)
  | inr e ↦ rw e (strip_twice t, given_codes-All ts)
]

pub given_codes-append :
    (xs ys : List Text) → given_codes (xs ++ ys) ≡ given_codes xs ++ given_codes ys
given_codes-append [] ys = refl
given_codes-append (x ∷ xs) ys = elim (Bool-cases (is_empty (strip x))) [
  | inl e ↦ rw e (given_codes-append xs ys)
  | inr e ↦ rw e (ap (λ zs. strip x ∷ zs) (given_codes-append xs ys))
]

-- A code of a list is in one of two that make it up.
abbrev pub FromEither : List Text → List Text → List Text → Type 0
FromEither zs xs ys = (s : Text) → mem s zs ≡ true → (mem s xs || mem s ys) ≡ true

pub flat_map-FromEither :
    (f : Text → List Text) (zs xs ys : List Text)
    → FromEither zs xs ys
    → FromEither (flat_map f zs) (flat_map f xs) (flat_map f ys)
flat_map-FromEither f zs xs ys from s h =
    let (r, there, brought) = flat_map-mem s f zs h in
    elim (Bool-cases (mem r xs)) [
      | inl e ↦ rw (mem-flat_map s f r xs e brought) refl
      | inr e ↦
          let other : mem r ys ≡ true = ground (arith, from r there, e) in
          ground (arith, mem-flat_map s f r ys other brought)
    ]

pub where_rows-FromEither :
    (q : Text → Bool) (zs xs ys : List Text)
    → FromEither zs xs ys
    → FromEither (where_rows q zs) (where_rows q xs) (where_rows q ys)
where_rows-FromEither q zs xs ys from s h =
    let passes = where_rows-mem s q zs h in
    elim (Bool-cases (mem s xs)) [
      | inl e ↦ rw (where_rows-passes s q xs e passes) refl
      | inr e ↦
          let other : mem s ys ≡ true = ground (arith, from s (where_rows-given s q zs h), e) in
          ground (arith, where_rows-passes s q ys other passes)
    ]

pub append-FromEither :
    (zs xs ys ws us vs : List Text)
    → FromEither zs xs ys
    → FromEither ws us vs
    → FromEither (zs ++ ws) (xs ++ us) (ys ++ vs)
append-FromEither zs xs ys ws us vs first second s h =
    let is_s : Text → Bool = λ r. text_eqb r s in
    elim (Bool-cases (mem s zs)) [
      | inl e ↦ elim (Bool-cases (mem s xs)) [
        | inl x ↦ rw (any-append_left is_s xs us x) refl
        | inr x ↦
            let y : mem s ys ≡ true = ground (arith, first s e, x) in
            ground (arith, any-append_left is_s ys vs y)
      ]
      | inr e ↦
          let later : mem s ws ≡ true = ground (arith, append-any is_s zs ws h, e) in
          elim (Bool-cases (mem s us)) [
            | inl x ↦ rw (any-append_right is_s xs us x) refl
            | inr x ↦
                let y : mem s vs ≡ true = ground (arith, second s later, x) in
                ground (arith, any-append_right is_s ys vs y)
          ]
    ]
