-- ===== src/Finance/Settlement/Sides.antt =====
-- The two documents of an allocation.
use lcs_system.Shared.{
  ℕ, ◌≡◌, ◌≢◌, refl, sym, ◌∙◌, ◌⊎◌, true, false, Option, some, List, ◌∷◌, ℤ, pos, ◌-ℤ◌, ◌≤ℤ◌,
  int_laws, +ℤ_parts, -ℤ_parts, arith, ap, subst, inl, inr, Text,
}
use lcs_system.Finance.Models.{
  FinancialDocument, FinancialDocumentAllocation, DocumentType, Books, Request,
}
use lcs_system.Finance.Ledger.{find_document, modify_document}
use lcs_system.Finance.Ledger.Rows.{find_document-modify, document_key}
use lcs_system.Finance.Settlement.{
  is_payment, is_invoice, paid_out, settled, add_paid, record_allocation,
}
use lcs_system.Finance.Settlement.Subledger.{IsReconciled, IsSubledger}

module _ (a : FinancialDocumentAllocation) (rows : List FinancialDocumentAllocation) where
  -- The payment that an allocation draws on.
  payment_side :
      (p : FinancialDocument)
      → IsReconciled rows p
      → is_payment p.document_type ≡ true
      → a.payment_document_id ≡ p.id
      → a.target_document_id ≢ p.id
      → a.allocated_amount ≤ℤ p.total_amount -ℤ paid_out p.id rows
      → IsReconciled (a ∷ rows) (add_paid a.allocated_amount p)
  unfolding paid_out settled
  payment_side p h t from to le = record {
    paid = grind (int_laws, h.paid);
    one_way = λ e. grind (int_laws, h.one_way e);
    covered = λ _. grind (int_laws, h.paid, h.one_way t);
  }

  -- The invoice that it settles.
  target_side :
      (t : FinancialDocument)
      → IsReconciled rows t
      → is_payment t.document_type ≡ false
      → a.target_document_id ≡ t.id
      → a.payment_document_id ≢ t.id
      → a.allocated_amount ≤ℤ t.total_amount -ℤ t.paid_amount
      → IsReconciled (a ∷ rows) (add_paid a.allocated_amount t)
  unfolding paid_out settled
  target_side t h ty to from le = record {
    paid = grind (int_laws, h.paid);
    one_way = λ e. ground arith;
    covered = λ _.
        omega
          (arith, -ℤ_parts t.total_amount t.paid_amount, +ℤ_parts t.paid_amount a.allocated_amount);
  }

  -- Any other document.
  no_side :
      (d : FinancialDocument)
      → IsReconciled rows d
      → a.payment_document_id ≢ d.id
      → a.target_document_id ≢ d.id
      → IsReconciled (a ∷ rows) d
  unfolding paid_out settled
  no_side d h from to = record {
    paid = grind (int_laws, h.paid);
    one_way = λ e. grind (int_laws, h.one_way e);
    covered = h.covered;
  }

-- The invoice types are no payment types.
invoice_not_payment : (t : DocumentType) → is_invoice t ≡ true → is_payment t ≡ false
invoice_not_payment t h = ground arith

module _ (r : Request) (payment target : FinancialDocument) (amount : ℤ) (key : Option Text)
    (b : Books) where
  -- Where a document of the new books comes from.
  origin :
      payment.id ≢ target.id
      → find_document payment.id b.documents ≡ some payment
      → find_document target.id b.documents ≡ some target
      → (j : ℕ) (d : FinancialDocument)
      → find_document j (record_allocation r payment target amount key b).documents ≡ some d
      → (d ≡ add_paid amount payment)
        ⊎ ((d ≡ add_paid amount target)
            ⊎ ((find_document j b.documents ≡ some d) × (j ≢ payment.id) × (j ≢ target.id)))
  unfolding record_allocation
  origin ne fp ft j d found = ground (
    arith,
    find_document-modify payment.id (add_paid amount) (λ x q. q) j b.documents,
    find_document-modify target.id (add_paid amount) (λ x q. q) j
        (modify_document payment.id (add_paid amount) b.documents),
  )

  -- Writing an allocation that both sides can bear keeps the subledger reconciled.
  pub record_allocation-IsSubledger :
      IsSubledger b
      → find_document payment.id b.documents ≡ some payment
      → find_document target.id b.documents ≡ some target
      → is_payment payment.document_type ≡ true
      → is_invoice target.document_type ≡ true
      → pos 1 ≤ℤ amount
      → amount ≤ℤ payment.total_amount -ℤ paid_out payment.id b.allocations
      → amount ≤ℤ target.total_amount -ℤ target.paid_amount
      → IsSubledger (record_allocation r payment target amount key b)
  unfolding record_allocation
  record_allocation-IsSubledger h fp ft tp ti positive available outstanding = record {
    amounts = (positive, h.amounts);
    documents = λ j d found. reconciled j d (origin ne fp ft j d found);
  }
    where
      ne : payment.id ≢ target.id
      ne e = ground (
        arith,
        invoice_not_payment target.document_type ti,
        ap (λ (k : ℕ). find_document k b.documents) e,
      )

      row : FinancialDocumentAllocation
      row = record {
        payment_document_id = payment.id;
        target_document_id = target.id;
        allocated_amount = amount;
        allocated_currency_code = payment.currency_code;
        exchange_rate = payment.exchange_rate;
        created_by_user_id = r.user_id;
        idempotency_key = key;
      }

      reconciled :
          (j : ℕ) (d : FinancialDocument)
          → (d ≡ add_paid amount payment)
            ⊎ ((d ≡ add_paid amount target)
                ⊎ ((find_document j b.documents ≡ some d) × (j ≢ payment.id) × (j ≢ target.id)))
          → IsReconciled (row ∷ b.allocations) d
      reconciled j d (inl e) = subst (IsReconciled (row ∷ b.allocations)) (sym e) (
          payment_side row b.allocations payment (h.documents _ payment fp) tp refl
            (λ q. ne (sym q)) available)
      reconciled j d (inr (inl e)) = subst (IsReconciled (row ∷ b.allocations)) (sym e) (
          target_side row b.allocations target (h.documents _ target ft)
            (invoice_not_payment target.document_type ti) refl ne outstanding)
      reconciled j d (inr (inr (found, np, nt))) =
          let own = document_key j b.documents d found in
          no_side row b.allocations d (h.documents j d found) (λ q. np (sym (q ∙ own)))
            (λ q. nt (sym (q ∙ own)))
