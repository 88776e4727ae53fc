-- ===== src/Reports/Pages.antt =====
-- The pages of a report.
use native.Mathlib.Nat.{suc-mul, suc-add, zero-add, zero-mul}
use lcs_system.Shared.{
  ℕ, zero, suc, ◌+◌, ◌-◌, ◌*◌, ◌≤◌, ◌≡◌, refl, sym, ◌∙◌, ap, arith, List, [], ◌∷◌, ◌++◌, take, drop,
  length,
}
use lcs_system.Reports.{ReportFilters, page_of}

module _ {A : Type 0} where
  -- The first pages of a report, one after the other.
  abbrev pub first_pages : ReportFilters → List A → ℕ → List A
  first_pages f items zero = []
  first_pages f items (suc n) = first_pages f items n ++ page_of (record f { page = suc n }) items

  take-split : (a b : ℕ) (xs : List A) → take (a + b) xs ≡ take a xs ++ take b (drop a xs)
  take-split zero b xs = ap (λ (n : ℕ). take n xs) (zero-add b)
  take-split (suc a) b [] = rw suc-add (take_nil b)
    where
      take_nil : (n : ℕ) → ◌≡◌ {A = List A} [] (take n [])
      take_nil zero = refl
      take_nil (suc n) = refl
  take-split (suc a) b (x ∷ xs) = rw suc-add (ap (λ (ys : List A). x ∷ ys) (take-split a b xs))

  take-all : (n : ℕ) (xs : List A) → length xs ≤ n → take n xs ≡ xs
  take-all zero [] h = refl
  take-all zero (x ∷ xs) h = absurd (omega (arith, h))
  take-all (suc n) [] h = refl
  take-all (suc n) (x ∷ xs) h = ap (λ (ys : List A). x ∷ ys) (take-all n xs (omega (arith, h)))

  first_pages-take :
      (f : ReportFilters) (items : List A) (n : ℕ)
      → first_pages f items n ≡ take (n * f.page_size) items
  first_pages-take f items zero = ap (λ (k : ℕ). take k items) (sym (zero-mul f.page_size))
  first_pages-take f items (suc n) =
      let here : suc n - 1 ≡ n = omega arith in
      rw (suc-mul n f.page_size, take-split (n * f.page_size) f.page_size items, here)
        (ap (λ (xs : List A). xs ++ take f.page_size (drop (n * f.page_size) items))
          (first_pages-take f items n))

  -- The pages of a report put together are its items, each once and in order, as soon as there are
  -- pages enough for them.
  pub first_pages-all :
      (f : ReportFilters) (items : List A) (n : ℕ)
      → length items ≤ n * f.page_size
      → first_pages f items n ≡ items
  first_pages-all f items n h = first_pages-take f items n ∙ take-all _ items h
