-- ===== src/Finance/Settlement.antt =====
-- `allocate_payment` and `_allocation_fx` of backend/app/modules/finance/service.py: payments are
-- settled against invoices and bills.
pub mod Subledger
pub mod Sides
pub mod Allocate
pub mod Loop
pub mod Release
pub mod Post
use lcs_system.Shared.{
  ℕ, ◌+◌, ◌==◌, if◌then◌else◌, Bool, true, false, ◌&&◌, not, Option, none, some, List, [], ◌∷◌, ℤ,
  pos, ◌+ℤ◌, ◌-ℤ◌, ltb_ℤ, leb_ℤ, Outcome, ok, err, ◌>>=◌, ◌>>◌, raise_if, or_raise, not_found,
  invalid_state, validation_failed, conflict, currency_mismatch, allocation_exceeds_balance,
  first_row, Text, text_eqb,
}
use lcs_system.Finance.Fx.{Decimal, quantize_money, decimal, finite, whole}
use lcs_system.Finance.Models.{
  FinancialDocument, FinancialDocumentAllocation, DocumentType, customer_invoice, supplier_bill,
  customer_receipt, supplier_payment, DocumentStatus, Books, Request,
}
use lcs_system.Finance.Ledger.{
  find_document, modify_document, rate_or_one, precision_for, convert, minus,
}

-- `PAYMENT_TYPES` and `INVOICE_TYPES`
abbrev pub is_payment : DocumentType → Bool
is_payment customer_receipt = true
is_payment supplier_payment = true
is_payment _ = false

abbrev pub is_invoice : DocumentType → Bool
is_invoice customer_invoice = true
is_invoice supplier_bill = true
is_invoice _ = false

abbrev pub is_posted : DocumentStatus → Bool
is_posted DocumentStatus.posted = true
is_posted _ = false

-- The allocated amounts of a payment, and those against a target.
unfoldable pub paid_out : ℕ → List FinancialDocumentAllocation → ℤ
paid_out key [] = pos 0
paid_out key (a ∷ rest) =
    (if a.payment_document_id == key then a.allocated_amount else pos 0) +ℤ paid_out key rest

unfoldable pub settled : ℕ → List FinancialDocumentAllocation → ℤ
settled key [] = pos 0
settled key (a ∷ rest) =
    (if a.target_document_id == key then a.allocated_amount else pos 0) +ℤ settled key rest

abbrev pub add_paid : ℤ → FinancialDocument → FinancialDocument
add_paid amount d = record d { paid_amount = d.paid_amount +ℤ amount }

-- What the caller is told.
pub record Settlement : Type 0 where
  pub allocated : ℤ
  pub payment_base : Decimal
  pub target_base : Decimal
  pub exchange_difference : Decimal
  pub payment_balance : ℤ
  pub target_outstanding : ℤ
  pub idempotent_replay : Bool

-- Base value of one allocated amount on each side, and their difference.
unfoldable pub allocation_fx : ℤ → ℤ → ℤ → ℕ → Outcome (Decimal × Decimal × Decimal)
allocation_fx amount payment_rate target_rate precision = do
  payment_base ← convert amount (rate_or_one payment_rate) precision
  target_base ← convert amount (rate_or_one target_rate) precision
  difference ← quantize_money (minus payment_base target_base) (decimal (finite (whole precision)))
  ok (payment_base, target_base, difference)

abbrev balance_of : Option FinancialDocument → ℤ
balance_of none = pos 0
balance_of (some d) = d.total_amount -ℤ d.paid_amount

abbrev pub rate_on : ℤ → Option FinancialDocument → ℤ
rate_on r none = r
rate_on r (some d) = d.exchange_rate

abbrev pub has_key : Text → FinancialDocumentAllocation → Bool
has_key k a = elim a.idempotency_key [ none ↦ false | some j ↦ text_eqb j k ]

-- The answer to a request whose key was used before: what the first one did.
unfoldable pub replay : FinancialDocumentAllocation → Books → Outcome (Settlement × Books)
unfolding allocation_fx
replay a b = do
  let payment = find_document a.payment_document_id b.documents
  let target = find_document a.target_document_id b.documents
  precision ← precision_for b.currencies a.allocated_currency_code
  values ←
      allocation_fx a.allocated_amount a.exchange_rate (rate_on a.exchange_rate target) precision
  ok (
    record {
      allocated = a.allocated_amount;
      payment_base = values.0;
      target_base = values.1;
      exchange_difference = values.2;
      payment_balance = balance_of payment;
      target_outstanding = balance_of target;
      idempotent_replay = true;
    },
    b,
  )

-- The allocation row, and both documents with the amount added to what is paid.
unfoldable pub record_allocation :
    Request → FinancialDocument → FinancialDocument → ℤ → Option Text → Books → Books
record_allocation r payment target amount key b = record b {
  allocations =
      record {
        payment_document_id = payment.id;
        target_document_id = target.id;
        allocated_amount = amount;
        allocated_currency_code = payment.currency_code;
        exchange_rate = payment.exchange_rate;
        created_by_user_id = r.user_id;
        idempotency_key = key;
      }
      ∷ b.allocations;
  documents =
      modify_document target.id (add_paid amount)
        (modify_document payment.id (add_paid amount) b.documents);
}

unfoldable pub settle :
    Request
    → FinancialDocument
    → FinancialDocument
    → ℤ
    → Option Text
    → Books
    → Outcome (Settlement × Books)
unfolding allocation_fx record_allocation
settle r payment target amount key b = do
  raise_if (not (is_payment payment.document_type)) validation_failed
  raise_if (not (is_invoice target.document_type)) validation_failed
  raise_if (not (is_posted payment.status && is_posted target.status)) invalid_state
  raise_if (not (text_eqb payment.currency_code target.currency_code)) (conflict currency_mismatch)
  raise_if (leb_ℤ amount (pos 0)) validation_failed
  let available = payment.total_amount -ℤ paid_out payment.id b.allocations
  raise_if (ltb_ℤ available amount) (conflict allocation_exceeds_balance)
  let outstanding = target.total_amount -ℤ target.paid_amount
  raise_if (ltb_ℤ outstanding amount) (conflict allocation_exceeds_balance)
  precision ← precision_for b.currencies payment.currency_code
  values ← allocation_fx amount payment.exchange_rate target.exchange_rate precision
  ok (
    record {
      allocated = amount;
      payment_base = values.0;
      target_base = values.1;
      exchange_difference = values.2;
      payment_balance = payment.total_amount -ℤ (payment.paid_amount +ℤ amount);
      target_outstanding = target.total_amount -ℤ (target.paid_amount +ℤ amount);
      idempotent_replay = false;
    },
    record_allocation r payment target amount key b,
  )

-- `if idempotency_key:`
abbrev pub given_key : Option Text → Option Text
given_key (some []) = none
given_key k = k

abbrev pub earlier :
    Option Text → List FinancialDocumentAllocation → Option FinancialDocumentAllocation
earlier none rows = none
earlier (some k) rows = first_row (has_key k) rows

-- `target` and `amount` are those of the validated payload; an amount left out reads as zero.
unfoldable pub allocate_payment :
    Request → ℕ → Option ℕ → ℤ → Option Text → Books → Outcome (Settlement × Books)
unfolding replay settle
allocate_payment r payment_id target_id amount key b =
    elim (earlier (given_key key) b.allocations) [
      | some a ↦ replay a b
      | none ↦ do
        payment ← or_raise (find_document payment_id b.documents) not_found
        wanted ← or_raise target_id validation_failed
        target ← or_raise (find_document wanted b.documents) not_found
        settle r payment target amount key b
    ]
