-- ===== src/Finance/Entry/Save.antt =====
-- `save_document` of backend/app/modules/finance/service.py: a document is created, or a draft
-- edited.
use lcs_system.Shared.{
  ℕ, ◌+◌, if◌then◌else◌, Bool, true, false, ◌&&◌, ◌||◌, not, Option, none, some, or_else, List, [],
  ◌∷◌, map, ℤ, pos, ◌+ℤ◌, ◌-ℤ◌, leb_ℤ, Outcome, ok, ◌>>=◌, ◌>>◌, raise_if, validation_failed,
  invalid_state, is_empty, is_found, Text, codes, strip,
}
use lcs_system.Finance.Fx as Fx
use lcs_system.Finance.Fx.{Decimal, finite, whole, Value, null, decimal}
use lcs_system.Finance.Models.{
  Date, DocumentType, customer_invoice, credit_note, supplier_bill, supplier_credit_note,
  customer_receipt, supplier_payment, other_income, other_expense, transfer, adjustment, other,
  DocumentStatus, FinancialDocument, DocumentSequence, Books, Request,
}
use lcs_system.Finance.Sequences.{allocate_number}
use lcs_system.Finance.PostingRules.{same_type}
use lcs_system.Finance.PostingRules.Administration.{is_known}
use lcs_system.Finance.Ledger.{modify_document, money_column}
use lcs_system.Finance.Entry.{EntryLine, entry_lines, exact_amount}
use lcs_system.Finance.Entry.Payload.{
  EntryTables, DocumentInput, resolve_type, check_dates, check_manual, given_document, is_new,
  date_of, issued_on,
}
use lcs_system.Finance.Entry.Rates.{CurrencyInputs, document_currency_inputs}

abbrev pub sum_lines : (EntryLine → ℤ) → List EntryLine → ℤ
sum_lines column [] = pos 0
sum_lines column (l ∷ ls) = column l +ℤ sum_lines column ls

abbrev pub exact_total : List EntryLine → ℤ
exact_total ls =
    sum_lines (λ l. l.base) ls -ℤ sum_lines (λ l. l.discount) ls +ℤ sum_lines (λ l. l.tax) ls

abbrev pub currency_of : Option FinancialDocument → Option Text → Text → Text
currency_of _ (some (c ∷ t)) default = c ∷ t
currency_of (some d) _ default = if is_empty d.currency_code then default else d.currency_code
currency_of none _ default = default

abbrev pub stored_rate : Option FinancialDocument → Option ℤ
stored_rate none = none
stored_rate (some d) = some d.exchange_rate

abbrev pub date_for : Option FinancialDocument → Option Date → Date → Date
date_for _ (some d) today = d
date_for (some d) none today = d.document_date
date_for none none today = today

abbrev pub converted : Decimal → CurrencyInputs → Outcome ℤ
converted amount money =
    Fx.convert_to_base amount money.rate (decimal (finite (whole money.precision))) >>= λ base.
    ok (money_column base)

-- The lines and totals of a save, written to a document.
unfoldable pub with_totals :
    CurrencyInputs → List EntryLine → FinancialDocument → Outcome FinancialDocument
with_totals money ls d = do
  let subtotal = sum_lines (λ l. l.base) ls
  let discount = sum_lines (λ l. l.discount) ls
  let tax = sum_lines (λ l. l.tax) ls
  base_subtotal ← converted (exact_amount subtotal) money
  base_discount ← converted (exact_amount discount) money
  base_tax ← converted (exact_amount tax) money
  base_total ← converted (exact_amount (exact_total ls)) money
  ok (record d {
    lines = map (λ l. l.row) ls;
    subtotal_amount = money_column (exact_amount subtotal);
    discount_amount = money_column (exact_amount discount);
    tax_amount = money_column (exact_amount tax);
    total_amount = money_column (exact_amount (exact_total ls));
    base_currency_code = some money.base;
    base_subtotal_amount = base_subtotal;
    base_discount_amount = base_discount;
    base_tax_amount = base_tax;
    base_total_amount = base_total;
  })

abbrev pub rate_column : Decimal → ℤ
rate_column d = (Fx.quantize 8 d).coefficient

abbrev type_name : DocumentType → Text
type_name customer_invoice = codes "CUSTOMER_INVOICE"
type_name credit_note = codes "CREDIT_NOTE"
type_name supplier_bill = codes "SUPPLIER_BILL"
type_name supplier_credit_note = codes "SUPPLIER_CREDIT_NOTE"
type_name customer_receipt = codes "CUSTOMER_RECEIPT"
type_name supplier_payment = codes "SUPPLIER_PAYMENT"
type_name other_income = codes "OTHER_INCOME"
type_name other_expense = codes "OTHER_EXPENSE"
type_name transfer = codes "TRANSFER"
type_name adjustment = codes "ADJUSTMENT"
type_name (other _) = []

abbrev no_text : Option Text → Bool
no_text none = true
no_text (some t) = is_empty (strip t)

-- The number that the payload gives, or the next of the type's sequence.
abbrev pub numbered :
    Request → DocumentType → Option Text → List DocumentSequence → Text × List DocumentSequence
numbered r t given sequences =
    let allocated = allocate_number (type_name t) r.utc_year sequences in
    if no_text given then allocated else (or_else given [], sequences)

abbrev pub new_document :
    Request → DocumentInput → DocumentType → CurrencyInputs → Text → ℕ → FinancialDocument
new_document r input t money number fresh = record {
  id = fresh;
  document_no = number;
  document_type = t;
  document_date = or_else (issued_on input) r.today;
  posting_date = date_of input.posting_date;
  status = DocumentStatus.draft;
  party_id = input.party_id;
  service_order_id = input.service_order_id;
  currency_code = money.currency;
  exchange_rate = rate_column money.rate;
  base_currency_code = some money.base;
  subtotal_amount = pos 0;
  discount_amount = pos 0;
  tax_amount = pos 0;
  total_amount = pos 0;
  base_subtotal_amount = pos 0;
  base_discount_amount = pos 0;
  base_tax_amount = pos 0;
  base_total_amount = pos 0;
  paid_amount = pos 0;
  posted_by_user_id = none;
  lines = [];
}

abbrev or_kept {ℓ} : {A : Type ℓ} → Option A → Option A → Option A
or_kept none old = old
or_kept (some a) _ = some a

abbrev is_given : Value → Bool
is_given null = false
is_given _ = true

-- `if value is not None: setattr(document, column, value)`, and the currency if one was sent.
abbrev pub edited : DocumentInput → CurrencyInputs → FinancialDocument → FinancialDocument
edited input money d =
    let sent = is_found input.currency || is_given input.exchange_rate in
    record d {
      party_id = or_kept input.party_id d.party_id;
      service_order_id = or_kept input.service_order_id d.service_order_id;
      posting_date = or_kept (date_of input.posting_date) d.posting_date;
      document_date = or_else (issued_on input) d.document_date;
      currency_code = if sent then money.currency else d.currency_code;
      exchange_rate = if sent then rate_column money.rate else d.exchange_rate;
      base_currency_code = some money.base;
      status = DocumentStatus.draft;
    }

abbrev pub is_draft_status : DocumentStatus → Bool
is_draft_status DocumentStatus.draft = true
is_draft_status _ = false

abbrev pub other_type : DocumentInput → DocumentType → FinancialDocument → Bool
other_type input t d = is_found input.document_type && not (same_type t d.document_type)

abbrev pub unpaid_manual : DocumentInput → List EntryLine → Bool
unpaid_manual input ls =
    is_new input.id && is_found input.service_order_id && leb_ℤ (exact_total ls) (pos 0)

unfoldable pub create_document :
    Request → DocumentInput → DocumentType → CurrencyInputs → Books → Outcome Books
unfolding with_totals
create_document r input t money b = do
  raise_if (not (is_known t)) validation_failed
  let (number, sequences') = numbered r t input.document_no b.sequences
  ls ← entry_lines b.accounts input.lines
  raise_if (unpaid_manual input ls) validation_failed
  d ← with_totals money ls (new_document r input t money number b.next_id)
  ok (record b { sequences = sequences'; documents = d ∷ b.documents; next_id = b.next_id + 1 })

unfoldable pub edit_document :
    DocumentInput → DocumentType → CurrencyInputs → FinancialDocument → Books → Outcome Books
unfolding with_totals
edit_document input t money d b = do
  raise_if (not (is_draft_status d.status)) invalid_state
  raise_if (other_type input t d) validation_failed
  ls ← entry_lines b.accounts input.lines
  raise_if (unpaid_manual input ls) validation_failed
  saved ← with_totals money ls (edited input money d)
  ok (record b { documents = modify_document d.id (λ _. saved) b.documents })

unfoldable pub save_document : Request → EntryTables → DocumentInput → Books → Outcome Books
unfolding create_document edit_document
save_document r tables input b = do
  t ← resolve_type tables.types input
  check_dates input
  let stored = given_document input.id b.documents
  check_manual tables input
  money ←
      document_currency_inputs b.currencies tables.rates input.exchange_rate
        (currency_of stored input.currency r.default_currency) r.default_currency
        (date_for stored (issued_on input) r.today) (stored_rate stored)
  elim stored [
    | none ↦ create_document r input t money b
    | some d ↦ edit_document input t money d b
  ]
