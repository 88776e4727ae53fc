-- ===== src/Finance/Settlement/Loop.antt =====
-- The loop of `reverse_document` that gives back what was allocated.
use lcs_system.Shared.{
  ℕ, ◌≡◌, ◌≢◌, refl, ◌∙◌, true, not, if◌then◌else◌, none, some, List, [], ◌∷◌, ◌==◌, ℤ, pos, ◌+ℤ◌,
  ◌-ℤ◌, ◌≤ℤ◌, max_ℤ, int_laws, +ℤ_parts, -ℤ_parts, arith, All, where_rows, ap, Bool-cases, inl, inr,
}
use lcs_system.Finance.Models.{FinancialDocument, FinancialDocumentAllocation}
use lcs_system.Finance.Ledger.{find_document}
use lcs_system.Finance.Ledger.Rows.{find_document-modify}
use lcs_system.Finance.Documents.{touches, other_side, take_back, release}
use lcs_system.Finance.Settlement.{paid_out, settled}
use lcs_system.Finance.Settlement.Subledger.{shared}

abbrev pub Positive : FinancialDocumentAllocation → Type 0
Positive a = pos 1 ≤ℤ a.allocated_amount

same_paid : (d : FinancialDocument) (x : ℤ) → d.paid_amount ≡ x → d ≡ record d { paid_amount = x }
same_paid d x e = ap (λ (y : ℤ). record d { paid_amount = y }) e

-- What is at least the amount taken back is not cut off at zero.
max_stays : (x a y : ℤ) → pos 0 ≤ℤ y → a +ℤ y ≤ℤ x → max_ℤ (pos 0) (x -ℤ a) ≡ x -ℤ a
max_stays x a y s le = ground (arith, +ℤ_parts a y, -ℤ_parts x a)

-- The sums after one more row, that goes or that stays.
gone_sums :
    (x y z a b c d e : ℤ)
    → x +ℤ y ≡ z
    → a +ℤ b ≡ c +ℤ d +ℤ e
    → (x +ℤ a) +ℤ (y +ℤ b) ≡ c +ℤ d +ℤ (z +ℤ e)
gone_sums x y z a b c d e h k = grind (int_laws, h, k)

kept_sums :
    (x y a b c d e : ℤ)
    → a +ℤ b ≡ c +ℤ d +ℤ e
    → (x +ℤ a) +ℤ (y +ℤ b) ≡ (x +ℤ c) +ℤ (y +ℤ d) +ℤ (pos 0 +ℤ e)
kept_sums x y a b c d e k = grind (int_laws, k)

pub covered_by :
    (x a b c d e : ℤ) → pos 0 ≤ℤ c → pos 0 ≤ℤ d → x ≡ a +ℤ b → a +ℤ b ≡ c +ℤ d +ℤ e → e ≤ℤ x
covered_by x a b c d e p q h k =
    let same : x ≡ c +ℤ d +ℤ e = h ∙ k in rw same (omega (arith, +ℤ_parts (c +ℤ d) e, +ℤ_parts c d))

module _ (key j : ℕ) where
  -- An allocation that touches `key` stands against `j` as its other side, or not at all.
  one_side :
      (a : FinancialDocumentAllocation)
      → j ≢ key
      → touches key a ≡ true
      → (if a.payment_document_id == j then a.allocated_amount else pos 0)
          +ℤ (if a.target_document_id == j then a.allocated_amount else pos 0)
        ≡ (if other_side key a == j then a.allocated_amount else pos 0)
  one_side a ne t = grind int_laws

  -- Of the allocations of `j`, those with `key` go and the others stay.
  pub settled_rest :
      (rows : List FinancialDocumentAllocation)
      → j ≢ key
      → paid_out j rows +ℤ settled j rows
        ≡ paid_out j (where_rows (λ a. not (touches key a)) rows)
          +ℤ settled j (where_rows (λ a. not (touches key a)) rows)
          +ℤ shared key j rows
  unfolding paid_out settled shared
  settled_rest [] ne = omega int_laws
  settled_rest (a ∷ rows) ne = elim (Bool-cases (touches key a)) [
    | inl p ↦ rw p (gone_sums _ _ _ _ _ _ _ _ (one_side a ne p) (settled_rest rows ne))
    | inr p ↦ rw p (kept_sums _ _ _ _ _ _ _ (settled_rest rows ne))
  ]

  -- What of the allocations goes is no more than what there was.
  pub shared_pos :
      (rows : List FinancialDocumentAllocation)
      → All Positive rows
      → (pos 0 ≤ℤ shared key j rows) × (pos 0 ≤ℤ paid_out j rows) × (pos 0 ≤ℤ settled j rows)
  unfolding paid_out settled shared
  shared_pos [] h = ground arith
  shared_pos (a ∷ rows) h =
      let (s, p, t) = shared_pos rows h.1 in
      ground (
        arith,
        +ℤ_parts a.allocated_amount (shared key j rows),
        +ℤ_parts a.allocated_amount (paid_out j rows),
        +ℤ_parts a.allocated_amount (settled j rows),
        +ℤ_parts (pos 0) (shared key j rows),
        +ℤ_parts (pos 0) (paid_out j rows),
        +ℤ_parts (pos 0) (settled j rows),
      )

  pub settled_none :
      (rows : List FinancialDocumentAllocation)
      → All Positive rows
      → settled j rows ≤ℤ pos 0
      → settled j (where_rows (λ a. not (touches key a)) rows) ≡ pos 0
  unfolding settled
  settled_none [] h e = refl
  settled_none (a ∷ rows) h e =
      let (_, _, t) = shared_pos rows h.1 in
      ground (
        arith,
        settled_none rows h.1,
        +ℤ_parts a.allocated_amount (settled j rows),
        +ℤ_parts (pos 0) (settled j rows),
        +ℤ_parts (pos 0) (settled j (where_rows (λ a. not (touches key a)) rows)),
      )

  pub shared_where :
      (rows : List FinancialDocumentAllocation)
      → shared key j (where_rows (touches key) rows) ≡ shared key j rows
  unfolding shared
  shared_where [] = refl
  shared_where (a ∷ rows) = grind (int_laws, shared_where rows)

  -- The document `j` after the loop.
  pub find_document-release :
      (rows : List FinancialDocumentAllocation) (docs : List FinancialDocument)
      (d : FinancialDocument)
      → All Positive rows
      → All (λ a. touches key a ≡ true) rows
      → find_document j docs ≡ some d
      → shared key j rows ≤ℤ d.paid_amount
      → find_document j (release key rows docs)
        ≡ some (record d { paid_amount = d.paid_amount -ℤ shared key j rows })
  unfolding release shared
  find_document-release [] docs d h t found le = found ∙ ap some (same_paid d _ (grind int_laws))
  find_document-release (a ∷ rows) docs d h t found le =
      let (s, _, _) = shared_pos rows h.1 in
      elim (Bool-cases (other_side key a == j)) [
        | inl p ↦
            let gone = rw (t.0, p) at le in
            let stays = max_stays d.paid_amount a.allocated_amount (shared key j rows) s gone in
            rw (t.0, p)
              (find_document-release rows _ (take_back a.allocated_amount d) h.1 t.1
                  (ground (
                    arith,
                    find_document-modify (other_side key a) (take_back a.allocated_amount)
                        (λ x q. q) j docs,
                  ))
                  (rw stays (grind int_laws))
                ∙ ap (λ (y : ℤ). some (record d { paid_amount = y })) (rw stays (grind int_laws)))
        | inr p ↦
            let gone = rw (t.0, p) at le in
            rw (t.0, p)
              (find_document-release rows _ d h.1 t.1
                  (ground (
                    arith,
                    find_document-modify (other_side key a) (take_back a.allocated_amount)
                        (λ x q. q) j docs,
                  ))
                  (grind int_laws)
                ∙ ap (λ (y : ℤ). some (record d { paid_amount = y })) (grind int_laws))
      ]

  pub find_document-release-none :
      (rows : List FinancialDocumentAllocation) (docs : List FinancialDocument)
      → find_document j docs ≡ none
      → find_document j (release key rows docs) ≡ none
  unfolding release
  find_document-release-none [] docs found = found
  find_document-release-none (a ∷ rows) docs found = find_document-release-none rows _ (
      ground (
        arith,
        find_document-modify (other_side key a) (take_back a.allocated_amount) (λ x q. q) j docs,
      ))
