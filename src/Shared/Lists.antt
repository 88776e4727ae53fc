-- ===== src/Shared/Lists.antt =====
-- Lists as the rows of a table: length, filter by a Boolean test, first match, and the predicate
-- that holds of every row.
use Prim.Native.Nat.{ℕ, zero, suc, ◌+◌}
use mathlib.Core.Path.{◌≡◌, refl}
use mathlib.Core.Bool.{Bool, true, false}
use mathlib.Core.Option.{Option, none, some}
use mathlib.Core.List.{List, [], ◌∷◌, ◌++◌}
use native.Mathlib.Omega.{arith}
use mathlib.Core.Path.{subst}
use mathlib.Core.Logic.{inl, inr}
use lcs_system.Shared.Tests.{if◌then◌else◌, Bool-cases}

abbrev pub All {ℓ κ} : {A : Type ℓ} → (A → Type κ) → List A → Type κ
All P [] = Unit
All P (x ∷ xs) = P x × All P xs

module _ {ℓ} {A : Type ℓ} where
  abbrev pub length : List A → ℕ
  length [] = 0
  length (_ ∷ xs) = suc (length xs)

  -- The rows that pass a test, in the order of the table.
  abbrev pub where_rows : (A → Bool) → List A → List A
  where_rows p [] = []
  where_rows p (x ∷ xs) = let rest = where_rows p xs in if p x then x ∷ rest else rest

  -- The first row that passes a test: `.scalars().first()`.
  abbrev pub first_row : (A → Bool) → List A → Option A
  first_row p [] = none
  first_row p (x ∷ xs) = if p x then some x else first_row p xs

  abbrev pub is_found : Option A → Bool
  is_found none = false
  is_found (some _) = true

  abbrev pub is_empty : List A → Bool
  is_empty [] = true
  is_empty (_ ∷ _) = false

  pub length-append : (xs ys : List A) → length (xs ++ ys) ≡ length xs + length ys
  length-append [] ys = omega arith
  length-append (x ∷ xs) ys = omega (arith, length-append xs ys)

  pub All-append {κ} : (P : A → Type κ) (xs ys : List A) → All P xs → All P ys → All P (xs ++ ys)
  All-append P [] ys _ h = h
  All-append P (x ∷ xs) ys h k = (h.0, All-append P xs ys h.1 k)

  -- A row that a search returns passes the test, and has every property of the table's rows.
  pub first_row-passes : (p : A → Bool) (xs : List A) (x : A) → first_row p xs ≡ some x → p x ≡ true
  first_row-passes p [] x h = cc
  first_row-passes p (y ∷ xs) x h = ground (arith, first_row-passes p xs x)

  pub All-imp {κ ν} :
      (P : A → Type κ) (Q : A → Type ν) (xs : List A) → ((x : A) → P x → Q x) → All P xs → All Q xs
  All-imp P Q [] f h = tt
  All-imp P Q (x ∷ xs) f h = (f x h.0, All-imp P Q xs f h.1)

  pub some-eq : {x y : A} → some x ≡ some y → x ≡ y
  some-eq e = cc

  -- What a search finds has every property of the rows.
  pub All-first_row {κ} :
      (P : A → Type κ) (p : A → Bool) (xs : List A) {x : A}
      → All P xs
      → first_row p xs ≡ some x
      → P x
  All-first_row P p [] h e = cc
  All-first_row P p (y ∷ xs) {x} h e = elim (Bool-cases (p y)) [
    | inl t ↦ subst P (some-eq (rw t at e)) h.0
    | inr f ↦ All-first_row P p xs h.1 (rw f at e)
  ]

  pub All-where_rows {κ} :
      (P : A → Type κ) (p : A → Bool) (xs : List A) → All P xs → All P (where_rows p xs)
  All-where_rows P p [] h = tt
  All-where_rows P p (x ∷ xs) h = elim (Bool-cases (p x)) [
    | inl t ↦ rw t (h.0, All-where_rows P p xs h.1)
    | inr f ↦ rw f (All-where_rows P p xs h.1)
  ]

  -- A search that finds nothing, and what that says of every row.
  pub is_found-All :
      (p : A → Bool) (xs : List A) → is_found (first_row p xs) ≡ false → All (λ x. p x ≡ false) xs
  is_found-All p [] h = tt
  is_found-All p (x ∷ xs) h = elim (Bool-cases (p x)) [
    | inl t ↦ cc (rw t at h)
    | inr f ↦ (f, is_found-All p xs (rw f at h))
  ]

  pub All-is_found :
      (p : A → Bool) (xs : List A) → All (λ x. p x ≡ false) xs → is_found (first_row p xs) ≡ false
  All-is_found p [] h = refl
  All-is_found p (x ∷ xs) h = rw (h.0, All-is_found p xs h.1) refl

  -- ORDER BY, as an insertion sort: `before x y` puts x in front of y.
  abbrev pub insert_by : (A → A → Bool) → A → List A → List A
  insert_by before x [] = x ∷ []
  insert_by before x (y ∷ ys) =
      let later = y ∷ insert_by before x ys in if before x y then x ∷ y ∷ ys else later

  abbrev pub sort_by : (A → A → Bool) → List A → List A
  sort_by before [] = []
  sort_by before (x ∷ xs) = insert_by before x (sort_by before xs)

  -- `xs[:n]` and `xs[n:]`
  abbrev pub take : ℕ → List A → List A
  take zero xs = []
  take (suc n) [] = []
  take (suc n) (x ∷ xs) = x ∷ take n xs

  abbrev pub drop : ℕ → List A → List A
  drop zero xs = xs
  drop (suc n) [] = []
  drop (suc n) (x ∷ xs) = drop n xs
