-- ===== src/Access/Roles/Codes/Free.antt =====
-- The search for a code that no role has comes to an end.
use lcs_system.Shared.{
  ℕ, zero, suc, ◌+◌, ◌-◌, ◌*◌, ◌/◌, ◌%◌, ◌<◌, ◌≤◌, ◌==◌, ltb, ◌≡◌, refl, sym, ◌∙◌, ap,
  if◌then◌else◌, Bool, true, false, not, List, [], ◌∷◌, ◌++◌, All, take, length, where_rows, Text,
  text_eqb, text_eqb→eq, arith, inl, inr, Bool-cases,
}
use lcs_system.Finance.Sequences.{str, digits_onto}
use lcs_system.Access.{any, mem}
use lcs_system.Access.Governed.Rows.{any-where_rows}
use lcs_system.Access.Roles.Codes.{
  role_base, suffix_token, numbered_code, next_code, derive_role_code,
}

-- `int(text)`, behind the digits that are read already.
value : ℕ → Text → ℕ
value n [] = n
value n (c ∷ s) = value (n * 10 + (c - 48)) s

value-digits_onto :
    (fuel n : ℕ) (rest : Text) → n < fuel → value 0 (digits_onto fuel n rest) ≡ value n rest
unfolding digits_onto value
value-digits_onto zero n rest h = absurd (omega (arith, h))
value-digits_onto (suc fuel) n rest h = elim (Bool-cases (ltb n 10)) [
  | inl small ↦ rw small (ap (λ x. value x rest) (omega arith))
  | inr large ↦
      let ih = value-digits_onto fuel (n / 10) ((48 + n % 10) ∷ rest) (ground (arith, h, large)) in
      rw (large, ih) (ap (λ x. value x rest) (omega arith))
]

str-injective : (m n : ℕ) → str m ≡ str n → m ≡ n
unfolding str value
str-injective m n h =
    sym (value-digits_onto (suc m) m [] (omega arith))
    ∙ ap (value 0) h
    ∙ value-digits_onto (suc n) n [] (omega arith)

abbrev IsDigits : Text → Type 0
IsDigits = All (λ c. (c == 95) ≡ false)

digits_onto-IsDigits :
    (fuel n : ℕ) (rest : Text) → IsDigits rest → IsDigits (digits_onto fuel n rest)
unfolding digits_onto
digits_onto-IsDigits zero n rest h = h
digits_onto-IsDigits (suc fuel) n rest h = elim (Bool-cases (ltb n 10)) [
  | inl small ↦ rw small (ground (arith, small), h)
  | inr large ↦
      rw large (digits_onto-IsDigits fuel (n / 10) ((48 + n % 10) ∷ rest) (ground arith, h))
]

-- What stands behind the last underscore.
behind : Text → Text → Text
behind found [] = found
behind found (c ∷ s) = behind (if c == 95 then s else found) s

behind-IsDigits : (found s : Text) → IsDigits s → behind found s ≡ found
unfolding behind
behind-IsDigits found [] h = refl
behind-IsDigits found (c ∷ s) h = rw h.0 (behind-IsDigits found s h.1)

behind-append : (found t s : Text) → IsDigits s → behind found (t ++ (95 ∷ s)) ≡ s
unfolding behind
behind-append found [] s h = behind-IsDigits s s h
behind-append found (c ∷ t) s h = behind-append (if c == 95 then t ++ (95 ∷ s) else found) t s h

numbered_code-injective :
    (base : Text) (m n : ℕ) → numbered_code base m ≡ numbered_code base n → m ≡ n
unfolding str
numbered_code-injective base m n h =
    let front : ℕ → Text = λ k. take (64 - length (suffix_token k)) base in
    let digits : (k : ℕ) → IsDigits (str k) = λ k. digits_onto-IsDigits (suc k) k [] tt in
    str-injective m n (
      sym (behind-append [] (front m) (str m) (digits m))
      ∙ ap (behind []) h
      ∙ behind-append [] (front n) (str n) (digits n))

length-where_rows : {A : Type 0} (p : A → Bool) (xs : List A) → length (where_rows p xs) ≤ length xs
length-where_rows p [] = omega arith
length-where_rows p (x ∷ xs) = ground (arith, length-where_rows p xs)

-- Rows that are left out make a list shorter.
length-any :
    {A : Type 0} (p : A → Bool) (xs : List A)
    → any p xs ≡ true
    → length (where_rows (λ x. not (p x)) xs) < length xs
length-any p [] h = cc
length-any p (x ∷ xs) h = ground (arith, h, length-any p xs, length-where_rows (λ x. not (p x)) xs)

other_number :
    (base s : Text) (k m : ℕ)
    → k < m
    → text_eqb s (numbered_code base m) ≡ true
    → not (text_eqb s (numbered_code base k)) ≡ true
other_number base s k m below e = elim (Bool-cases (text_eqb s (numbered_code base k))) [
  | inr q ↦ rw q refl
  | inl q ↦
      let same : k ≡ m =
        numbered_code-injective base k m
          (sym (text_eqb→eq s (numbered_code base k) q) ∙ text_eqb→eq s (numbered_code base m) e) in
      absurd (omega (arith, same, below))
]

-- Every number from `k` on whose code is taken has it in `left`, which is shorter than the rounds.
next_code-free :
    (fuel k : ℕ) (base : Text) (existing left : List Text)
    → length left < fuel
    → ((m : ℕ)
        → k ≤ m
        → mem (numbered_code base m) existing ≡ true
        → mem (numbered_code base m) left ≡ true)
    → mem (next_code fuel base existing (k + 1) (numbered_code base k)) existing ≡ false
unfolding next_code
next_code-free zero k base existing left short taken = absurd (omega (arith, short))
next_code-free (suc fuel) k base existing left short taken =
    elim (Bool-cases (mem (numbered_code base k) existing)) [
      | inr free ↦ rw (next_code, free) free
      | inl found ↦
          let here = λ (s : Text). text_eqb s (numbered_code base k) in
          let less = length-any here left (taken k (omega arith) found) in
          rw (next_code, found)
            (next_code-free fuel (k + 1) base existing (where_rows (λ s. not (here s)) left)
              (omega (arith, less, short))
              (λ m above e.
                any-where_rows (λ s. text_eqb s (numbered_code base m)) (λ s. not (here s))
                  (λ s q. other_number base s k m (omega (arith, above)) q) left
                  (taken m (omega (arith, above)) e)))
    ]

-- For every name and every list of codes in use, the loop that looks for the code of a new role ends,
-- in at most two rounds more than there are codes in use, with a code that is not in use.
pub derive_role_code-free :
    (name : Text) (existing : List Text) → mem (derive_role_code name existing) existing ≡ false
unfolding derive_role_code next_code
derive_role_code-free name existing =
    let base = role_base name in
    elim (Bool-cases (mem base existing)) [
      | inr free ↦ rw (derive_role_code, next_code, free) free
      | inl found ↦
          rw (derive_role_code, next_code, found)
            (next_code-free (suc (length existing)) 2 base existing existing (omega arith)
              (λ m above e. e))
    ]
