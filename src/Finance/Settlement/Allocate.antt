-- ===== src/Finance/Settlement/Allocate.antt =====
-- The subledger after a payment is allocated.
use lcs_system.Shared.{
  ℕ, ◌≡◌, ◌⊎◌, Bool, true, false, not, ◌&&◌, Option, some, ℤ, pos, ◌-ℤ◌, ◌≤ℤ◌, ltb_ℤ, leb_ℤ, arith,
  ap, inl, inr, Text, text_eqb, ok, raise_if-eq-ok, or_raise-eq-ok, or_raise, ◌>>=◌, >>=-eq-ok,
  ok-injective, validation_failed, invalid_state, conflict, not_found, currency_mismatch,
  allocation_exceeds_balance, Option-cases,
}
use lcs_system.Finance.Models.{FinancialDocument, FinancialDocumentAllocation, Books, Request}
use lcs_system.Finance.Ledger.{find_document, precision_for}
use lcs_system.Finance.Ledger.Rows.{found_document_by_own_key}
use lcs_system.Finance.Settlement.{
  is_payment, is_invoice, is_posted, paid_out, record_allocation, Settlement, settle, allocation_fx,
  allocate_payment, earlier, given_key, replay, rate_on,
}
use lcs_system.Finance.Settlement.Subledger.{IsSubledger}
use lcs_system.Finance.Settlement.Sides.{record_allocation-IsSubledger}

-- What a settlement that goes through has checked.
pub record Settles (r : Request) (payment target : FinancialDocument) (amount : ℤ)
    (key : Option Text) (b b' : Books) : Type 0 where
  pub from_payment : is_payment payment.document_type ≡ true
  pub to_invoice : is_invoice target.document_type ≡ true
  pub both_posted : (is_posted payment.status && is_posted target.status) ≡ true
  pub one_currency : text_eqb payment.currency_code target.currency_code ≡ true
  pub positive : pos 1 ≤ℤ amount
  pub available : amount ≤ℤ payment.total_amount -ℤ paid_out payment.id b.allocations
  pub outstanding : amount ≤ℤ target.total_amount -ℤ target.paid_amount
  pub after : b' ≡ record_allocation r payment target amount key b

true_of_not : (c : Bool) → not c ≡ false → c ≡ true
true_of_not c h = ground arith

pub settle-Settles :
    (r : Request) (payment target : FinancialDocument) (amount : ℤ) (key : Option Text) (b : Books)
    {s : Settlement} {b' : Books}
    → settle r payment target amount key b ≡ ok (s, b')
    → Settles r payment target amount key b b'
unfolding settle
settle-Settles r payment target amount key b h =
    let (p, h₁) = raise_if-eq-ok (not (is_payment payment.document_type)) validation_failed _ h in
    let (t, h₂) = raise_if-eq-ok (not (is_invoice target.document_type)) validation_failed _ h₁ in
    let (po, h₃) =
      raise_if-eq-ok (not (is_posted payment.status && is_posted target.status)) invalid_state _
        h₂ in
    let (cu, h₄) =
      raise_if-eq-ok (not (text_eqb payment.currency_code target.currency_code))
        (conflict currency_mismatch) _ h₃ in
    let (am, h₅) = raise_if-eq-ok (leb_ℤ amount (pos 0)) validation_failed _ h₄ in
    let (av, h₆) =
      raise_if-eq-ok (ltb_ℤ (payment.total_amount -ℤ paid_out payment.id b.allocations) amount)
        (conflict allocation_exceeds_balance) _ h₅ in
    let (ou, h₇) =
      raise_if-eq-ok (ltb_ℤ (target.total_amount -ℤ target.paid_amount) amount)
        (conflict allocation_exceeds_balance) _ h₆ in
    let (precision, _, h₈) = >>=-eq-ok (precision_for b.currencies payment.currency_code) _ h₇ in
    let (_, _, h₉) =
      >>=-eq-ok (allocation_fx amount payment.exchange_rate target.exchange_rate precision) _ h₈ in
    record {
      from_payment = true_of_not _ p;
      to_invoice = true_of_not _ t;
      both_posted = true_of_not _ po;
      one_currency = true_of_not _ cu;
      positive = ground arith;
      available = ground arith;
      outstanding = ground arith;
      after = ap (λ (x : Settlement × Books). x.1) (ok-injective h₉);
    }

-- A repeated request changes nothing.
replay_keeps :
    (a : FinancialDocumentAllocation) (b : Books) {s : Settlement} {b' : Books}
    → replay a b ≡ ok (s, b')
    → b' ≡ b
unfolding replay
replay_keeps a b h =
    let (precision, _, h₁) = >>=-eq-ok (precision_for b.currencies a.allocated_currency_code) _ h in
    let (_, _, h₂) =
      >>=-eq-ok
        (allocation_fx a.allocated_amount a.exchange_rate
          (rate_on a.exchange_rate (find_document a.target_document_id b.documents)) precision)
        _ h₁ in
    ap (λ (x : Settlement × Books). x.1) (ok-injective h₂)

-- A request that was made before, or a settlement between two documents that are found.
pub allocate_payment-cases :
    (r : Request) (payment_id : ℕ) (target_id : Option ℕ) (amount : ℤ) (key : Option Text)
    (b : Books) {s : Settlement} {b' : Books}
    → allocate_payment r payment_id target_id amount key b ≡ ok (s, b')
    → (b' ≡ b)
      ⊎ ((payment : FinancialDocument) × (target : FinancialDocument) × (find_document payment_id
              b.documents
            ≡ some payment)
          × (find_document payment.id b.documents ≡ some payment)
          × (find_document target.id b.documents ≡ some target)
          × (settle r payment target amount key b ≡ ok (s, b')))
unfolding allocate_payment
allocate_payment-cases r payment_id target_id amount key b {s} {b'} h =
    elim (Option-cases (earlier (given_key key) b.allocations)) [
      | inl fresh ↦ inr (settled_by (rw (fresh, allocate_payment) at h))
      | inr (a, seen) ↦ inl (replay_keeps a b (rw (seen, allocate_payment) at h))
    ]
  where
    settled_by :
        (or_raise (find_document payment_id b.documents) not_found >>= λ payment.
        or_raise target_id validation_failed >>= λ wanted.
        or_raise (find_document wanted b.documents) not_found >>= λ target.
        settle r payment target amount key b)
          ≡ ok (s, b')
        → (payment : FinancialDocument) × (target : FinancialDocument) × (find_document payment_id
              b.documents
            ≡ some payment)
          × (find_document payment.id b.documents ≡ some payment)
          × (find_document target.id b.documents ≡ some target)
          × (settle r payment target amount key b ≡ ok (s, b'))
    settled_by e =
        let (payment, fp, e₁) =
          or_raise-eq-ok (find_document payment_id b.documents) not_found _ e in
        let (wanted, _, e₂) = or_raise-eq-ok target_id validation_failed _ e₁ in
        let (target, ft, e₃) = or_raise-eq-ok (find_document wanted b.documents) not_found _ e₂ in
        (
          payment,
          target,
          fp,
          found_document_by_own_key payment_id b.documents payment fp,
          found_document_by_own_key wanted b.documents target ft,
          e₃,
        )

-- Allocating a payment keeps the subledger reconciled: every document that is found has been paid
-- exactly the sum of its allocations, and, where its total is not negative, no more than its total.
pub allocate_payment-IsSubledger :
    (r : Request) (payment_id : ℕ) (target_id : Option ℕ) (amount : ℤ) (key : Option Text)
    (b : Books) {s : Settlement} {b' : Books}
    → IsSubledger b
    → allocate_payment r payment_id target_id amount key b ≡ ok (s, b')
    → IsSubledger b'
allocate_payment-IsSubledger r payment_id target_id amount key b {s} {b'} h e =
    by_case (allocate_payment-cases r payment_id target_id amount key b e)
  where
    by_case :
        (b' ≡ b)
          ⊎ ((payment : FinancialDocument) × (target : FinancialDocument) × (find_document
                  payment_id b.documents
                ≡ some payment)
              × (find_document payment.id b.documents ≡ some payment)
              × (find_document target.id b.documents ≡ some target)
              × (settle r payment target amount key b ≡ ok (s, b')))
        → IsSubledger b'
    by_case (inl same) = rw same h
    by_case (inr (payment, target, _, fp, ft, settled_now)) =
        let c = settle-Settles r payment target amount key b settled_now in
        rw c.after (
          record_allocation-IsSubledger r payment target amount key b h fp ft c.from_payment
            c.to_invoice c.positive c.available c.outstanding)
