-- ===== src/Finance/Settlement/Release.antt =====
-- The subledger after a document is reversed.
use lcs_system.Shared.{
  ℕ, ◌≡◌, ◌≢◌, refl, sym, ◌∙◌, true, not, some, some-eq, List, [], ◌∷◌, ◌==◌, pos, ◌-ℤ◌, ◌≤ℤ◌,
  int_laws, -ℤ_parts, arith, All, eqb→eq, All-where_rows, where_rows, subst, Bool-cases,
  Option-cases, is_found, ap, eqb_refl, inl, inr, ok,
}
use lcs_system.Finance.Models.{
  FinancialDocument, FinancialDocumentAllocation, Books, Request, DocumentStatus,
}
use lcs_system.Finance.Ledger.{find_document, modify_document}
use lcs_system.Finance.Ledger.Rows.{find_document-modify, document_key}
use lcs_system.Finance.Documents.{
  touches, other_side, take_back, release, mark_reversed, reverse_document,
}
use lcs_system.Finance.Documents.Inversion.{reverse_document-cases, reverse_posted-Reversal}
use lcs_system.Finance.Documents.Soundness.{resolve_period_keeps}
use lcs_system.Finance.Settlement.{paid_out, settled}
use lcs_system.Finance.Settlement.Subledger.{IsReconciled, IsSubledger, shared}
use lcs_system.Finance.Settlement.Loop.{
  Positive, shared_pos, settled_rest, settled_none, shared_where, find_document-release,
  find_document-release-none, covered_by,
}

-- No allocation of the reversed document is left.
none_left :
    (key : ℕ) (rows : List FinancialDocumentAllocation)
    → let left = where_rows (λ a. not (touches key a)) rows in
      (paid_out key left ≡ pos 0) × (settled key left ≡ pos 0)
unfolding paid_out settled
none_left key [] = (refl, refl)
none_left key (a ∷ rows) =
    let (p, s) = none_left key rows in
    elim (Bool-cases (a.payment_document_id == key)) [
      | inl f ↦ rw f (p, s)
      | inr f ↦ elim (Bool-cases (a.target_document_id == key)) [
        | inl t ↦ rw (f, t) (p, s)
        | inr t ↦ rw (f, t) (grind (int_laws, f, p), grind (int_laws, t, s))
      ]
    ]

touches-All :
    (key : ℕ) (rows : List FinancialDocumentAllocation)
    → All (λ a. touches key a ≡ true) (where_rows (touches key) rows)
touches-All key [] = tt
touches-All key (a ∷ rows) = elim (Bool-cases (touches key a)) [
  | inl t ↦ rw t (t, touches-All key rows)
  | inr f ↦ rw f (touches-All key rows)
]

module _ (key : ℕ) (rows : List FinancialDocumentAllocation) (docs : List FinancialDocument)
    (positive : All Positive rows)
    (before : (j : ℕ) (d : FinancialDocument)
      → find_document j docs ≡ some d
      → IsReconciled rows d) where
  -- The reversed document.
  itself :
      (d : FinancialDocument)
      → d.id ≡ key
      → d.paid_amount ≡ pos 0
      → IsReconciled (where_rows (λ a. not (touches key a)) rows) d
  itself d own zero =
      let (p, s) = none_left key rows in
      record {
        paid = rw (own, zero, p, s) (grind int_laws);
        one_way = λ _. rw own s;
        covered = λ le. rw zero le;
      }

  -- Another document.
  another :
      (j : ℕ) (d : FinancialDocument)
      → j ≢ key
      → find_document j docs ≡ some d
      → IsReconciled
          (where_rows (λ a. not (touches key a)) rows)
          (record d { paid_amount = d.paid_amount -ℤ shared key j rows })
  another j d ne found =
      let h = before j d found in
      let own = document_key j docs d found in
      let (s, _, _) = shared_pos key j rows positive in
      let split = settled_rest key j rows ne in
      record {
        paid = rw own (grind (int_laws, split, rw own at h.paid));
        one_way = λ t.
            let z : settled j rows ≤ℤ pos 0 = ground (arith, h.one_way t, own) in
            rw own (settled_none key j rows positive z);
        covered = λ le. ground (arith, h.covered le, -ℤ_parts d.paid_amount (shared key j rows));
      }

  shared-covered :
      (j : ℕ) (d : FinancialDocument)
      → j ≢ key
      → find_document j docs ≡ some d
      → shared key j rows ≤ℤ d.paid_amount
  shared-covered j d ne found =
      let left = where_rows (λ a. not (touches key a)) rows in
      let (_, po, st) =
        shared_pos key j left (All-where_rows Positive (λ a. not (touches key a)) rows positive) in
      covered_by _ _ _ _ _ _ po st (rw (document_key j docs d found) at (before j d found).paid)
        (settled_rest key j rows ne)

  -- Any document after the loop and the reversal itself.
  after_reversal :
      (j : ℕ) (d : FinancialDocument)
      → find_document j
          (modify_document key mark_reversed (release key (where_rows (touches key) rows) docs))
        ≡ some d
      → IsReconciled (where_rows (λ a. not (touches key a)) rows) d
  after_reversal j d found =
      let loop = release key (where_rows (touches key) rows) docs in
      let m = find_document-modify key mark_reversed (λ x q. q) j loop in
      elim (Bool-cases (j == key)) [
        | inl p ↦
            let zero : d.paid_amount ≡ pos 0 = ground (arith, m) in
            itself d
              (document_key j (modify_document key mark_reversed loop) d found ∙ eqb→eq j key p)
              zero
        | inr p ↦
            let kept : find_document j loop ≡ some d = ground (arith, m) in
            elim (Option-cases (find_document j docs)) [
              | inl q ↦
                  let gone =
                    find_document-release-none key j (where_rows (touches key) rows) docs q in
                  cc
              | inr (d₀, q) ↦
                  let ne : j ≢ key = ground arith in
                  let fewer : shared key j (where_rows (touches key) rows) ≤ℤ d₀.paid_amount =
                    rw (shared_where key j rows) (shared-covered j d₀ ne q) in
                  let same =
                    find_document-release key j (where_rows (touches key) rows) docs d₀
                      (All-where_rows Positive (touches key) rows positive) (touches-All key rows) q
                      fewer in
                  subst (IsReconciled (where_rows (λ a. not (touches key a)) rows))
                    (some-eq (rw (shared_where key j rows) at (sym same ∙ kept)))
                    (another j d₀ ne q)
            ]
      ]

release-found :
    (key j : ℕ) (rows : List FinancialDocumentAllocation) (docs : List FinancialDocument)
    → is_found (find_document j docs) ≡ true
    → is_found (find_document j (release key rows docs)) ≡ true
unfolding release
release-found key j [] docs h = h
release-found key j (a ∷ rows) docs h =
    let other = other_side key a in
    let taken = take_back a.allocated_amount in
    let m = find_document-modify other taken (λ x q. q) j docs in
    release-found key j rows (modify_document other taken docs) (
      ap is_found m ∙ elim (Option-cases (find_document j docs)) [
        | inl q ↦ cc (rw q at h)
        | inr (d, q) ↦ elim (Bool-cases (j == other)) [
          | inl t ↦ rw (t, q) refl
          | inr f ↦ rw (f, q) refl
        ]
      ])

-- The document itself is found reversed, with nothing paid.
found_reversed :
    (key : ℕ) (rows : List FinancialDocumentAllocation) (docs : List FinancialDocument)
    → is_found (find_document key docs) ≡ true
    → (d : FinancialDocument) × (find_document key
          (modify_document key mark_reversed (release key rows docs))
        ≡ some d)
      × (d.status ≡ DocumentStatus.reversed)
      × (d.paid_amount ≡ pos 0)
found_reversed key rows docs h =
    let loop = release key rows docs in
    let m = find_document-modify key mark_reversed (λ x q. q) key loop in
    elim (Option-cases (find_document key loop)) [
      | inl q ↦ cc (ap is_found (sym q) ∙ release-found key key rows docs h)
      | inr (d, q) ↦ (mark_reversed d, m ∙ rw (eqb_refl key, q) refl, refl, refl)
    ]

-- Reversing a document leaves exactly the allocations that do not touch it, and the document reversed
-- with nothing paid, and keeps the subledger reconciled: every document, those on the other side of a
-- released allocation too, has then been paid what the allocations that are left say.
pub reverse_document-IsSubledger :
    (r : Request) (key : ℕ) (b : Books) {b' : Books}
    → IsSubledger b
    → reverse_document r key b ≡ ok b'
    → IsSubledger b'
      × (b'.allocations ≡ where_rows (λ a. not (touches key a)) b.allocations)
      × (d : FinancialDocument) × (find_document key b'.documents ≡ some d)
      × (d.status ≡ DocumentStatus.reversed)
      × (d.paid_amount ≡ pos 0)
reverse_document-IsSubledger r key b {b'} h e =
    let (d, found, _, reversed) = reverse_document-cases r key b e in
    let p = reverse_posted-Reversal r d b reversed in
    let (_, _, docs, rows, _) = resolve_period_keeps r.today b in
    let own = document_key key b.documents d found in
    let (d', there, is_reversed, unpaid) =
      found_reversed key (where_rows (touches key) b.allocations) b.documents (ap is_found found) in
    rw (p.after, docs, rows, own)
      (
        record {
          amounts = All-where_rows Positive (λ a. not (touches key a)) b.allocations h.amounts;
          documents = after_reversal key b.allocations b.documents h.amounts h.documents;
        },
        refl,
        d',
        there,
        is_reversed,
        unpaid,
      )
