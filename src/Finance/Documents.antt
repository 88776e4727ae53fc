-- ===== src/Finance/Documents.antt =====
-- `post_document`, `reverse_document` and `delete_draft_documents` of
-- backend/app/modules/finance/service.py. A call is one transaction: it returns the books that it
-- commits, or refuses and changes nothing. Row locks make the calls on a document take turns.
pub mod Entries
pub mod Inversion
pub mod Soundness
pub mod Mirror
use lcs_system.Shared.{
  ℕ, zero, suc, ◌+◌, ltb, leb, ◌==◌, if◌then◌else◌, Bool, true, false, ◌&&◌, ◌||◌, not, Option,
  none, some, or_else, List, [], ◌∷◌, ◌++◌, map, ℤ, pos, ◌+ℤ◌, ◌-ℤ◌, max_ℤ, Outcome, ok, err, ◌>>=◌,
  ◌>>◌, raise_if, or_raise, not_found, invalid_state, validation_failed, internal_error, conflict,
  duplicate_posting, period_closed, document_already_reversed, first_row, is_found, where_rows,
  length, Text, codes,
}
use lcs_system.Finance.Models.{
  Date, AccountingPeriod, PeriodStatus, closed, FinancialDocument, FinancialDocumentLine,
  FinancialDocumentAllocation, DocumentStatus, JournalEntry, JournalEntryLine, EntryType, automatic,
  reversal, EntryStatus, FinancialDocumentPosting, Books, Request,
}
use lcs_system.Finance.Periods.{resolve_period}
use lcs_system.Finance.Sequences.{allocate_number}
use lcs_system.Finance.Posting.{
  DocumentLineInput, DraftLine, JournalDraft, build, debit_total, credit_total, assert_balanced,
}
use lcs_system.Finance.Ledger.{
  find_document, find_entry, modify_document, debits, credits, rate_or_one, precision_for, convert,
  money_column, base_amount,
}

abbrev pub posting_of : ℕ → List FinancialDocumentPosting → Option FinancialDocumentPosting
posting_of key = first_row (λ p. p.financial_document_id == key)

abbrev pub is_closed : PeriodStatus → Bool
is_closed closed = true
is_closed _ = false

abbrev pub line_input : FinancialDocumentLine → DocumentLineInput
line_input l = record {
  amount = l.line_amount;
  tax = l.tax_amount;
  fee_type_id = l.fee_type_id;
  account_id = l.account_id;
}

abbrev line_of_draft : FinancialDocument → ℤ → ℕ → DraftLine → JournalEntryLine
line_of_draft d rate n l = record {
  line_no = n;
  account_id = l.account.id;
  party_id = d.party_id;
  service_order_id = d.service_order_id;
  financial_document_id = some d.id;
  debit_amount = if l.debit then l.amount else pos 0;
  credit_amount = if l.debit then pos 0 else l.amount;
  currency_code = d.currency_code;
  exchange_rate = rate;
  base_debit_amount = if l.debit then base_amount l.amount rate else pos 0;
  base_credit_amount = if l.debit then pos 0 else base_amount l.amount rate;
}

-- `for line_no, draft_line in enumerate(draft.lines, start=n)`
unfoldable pub lines_of_draft : FinancialDocument → ℤ → ℕ → List DraftLine → List JournalEntryLine
lines_of_draft d rate n [] = []
lines_of_draft d rate n (l ∷ ls) = line_of_draft d rate n l ∷ lines_of_draft d rate (suc n) ls

-- The document's amounts in the base currency, re-derived at its own rate.
unfoldable pub with_base_amounts : Request → Books → FinancialDocument → Outcome FinancialDocument
with_base_amounts r b d = do
  precision ← precision_for b.currencies d.currency_code
  let rate = rate_or_one d.exchange_rate
  subtotal ← convert d.subtotal_amount rate precision
  discount ← convert d.discount_amount rate precision
  tax ← convert d.tax_amount rate precision
  total ← convert d.total_amount rate precision
  ok (record d {
    base_currency_code = some (or_else d.base_currency_code r.default_currency);
    base_subtotal_amount = money_column subtotal;
    base_discount_amount = money_column discount;
    base_tax_amount = money_column tax;
    base_total_amount = money_column total;
  })

abbrev pub mark_posted : Request → Date → FinancialDocument → FinancialDocument
mark_posted r on d = record d {
  posting_date = some on;
  status = DocumentStatus.posted;
  posted_by_user_id = some r.user_id;
}

-- The entry that a posting writes.
unfoldable pub posting_entry :
    Request → FinancialDocument → AccountingPeriod → Date → JournalDraft → Text → ℕ → JournalEntry
posting_entry r d period on draft number key = record {
  id = key;
  entry_no = number;
  entry_type = automatic;
  entry_date = on;
  posting_date = on;
  accounting_period_id = some period.id;
  status = EntryStatus.posted;
  source_document_id = some d.id;
  posting_rule_id = draft.rule_id;
  reversal_of_journal_entry_id = none;
  created_by_user_id = some r.user_id;
  posted_by_user_id = some r.user_id;
  debit_total = debit_total draft;
  credit_total = credit_total draft;
  lines = lines_of_draft d (rate_or_one d.exchange_rate) 1 draft.lines;
}

abbrev add_entry : JournalEntry → Books → Books
add_entry e b = record b { entries = e ∷ b.entries; next_id = b.next_id + 1 }

unfoldable pub post_draft : Request → FinancialDocument → Books → Outcome Books
unfolding posting_entry
post_draft r d b = do
  raise_if (is_found (posting_of d.id b.postings)) (conflict duplicate_posting)
  let on = or_else d.posting_date d.document_date
  let (period, b₁) = resolve_period on b
  raise_if (is_closed period.status) (conflict period_closed)
  draft ← build b₁ d.document_type d.total_amount (map line_input d.lines)
  raise_if (ltb (length draft.lines) 2) validation_failed
  let (number, sequences') = allocate_number (codes "JOURNAL") r.utc_year b₁.sequences
  based ← with_base_amounts r b₁ d
  assert_balanced draft
  let entry = posting_entry r d period on draft number b₁.next_id
  ok (record b₁ {
    sequences = sequences';
    entries = entry ∷ b₁.entries;
    next_id = b₁.next_id + 1;
    postings = record { financial_document_id = d.id; journal_entry_id = entry.id } ∷ b₁.postings;
    documents = modify_document d.id (λ _. mark_posted r on based) b₁.documents;
  })

unfoldable pub post_document : Request → ℕ → Books → Outcome Books
unfolding post_draft
post_document r key b = do
  d ← or_raise (find_document key b.documents) not_found
  elim d.status [
    | DocumentStatus.posted ↦ ok b
    | DocumentStatus.draft ↦ post_draft r d b
    | _ ↦ err invalid_state
  ]

abbrev reversed_line : FinancialDocument → ℕ → JournalEntryLine → JournalEntryLine
reversed_line d n l = record {
  line_no = n;
  account_id = l.account_id;
  party_id = l.party_id;
  service_order_id = l.service_order_id;
  financial_document_id = some d.id;
  debit_amount = l.credit_amount;
  credit_amount = l.debit_amount;
  currency_code = l.currency_code;
  exchange_rate = l.exchange_rate;
  base_debit_amount = l.base_credit_amount;
  base_credit_amount = l.base_debit_amount;
}

unfoldable pub reversed_lines :
    FinancialDocument → ℕ → List JournalEntryLine → List JournalEntryLine
reversed_lines d n [] = []
reversed_lines d n (l ∷ ls) = reversed_line d n l ∷ reversed_lines d (suc n) ls

unfoldable pub reversal_entry :
    Request → FinancialDocument → JournalEntry → AccountingPeriod → Text → ℕ → JournalEntry
reversal_entry r d original period number key = record {
  id = key;
  entry_no = number;
  entry_type = reversal;
  entry_date = r.today;
  posting_date = r.today;
  accounting_period_id = some period.id;
  status = EntryStatus.posted;
  source_document_id = some d.id;
  posting_rule_id = original.posting_rule_id;
  reversal_of_journal_entry_id = some original.id;
  created_by_user_id = some r.user_id;
  posted_by_user_id = some r.user_id;
  debit_total = credits original.lines;
  credit_total = debits original.lines;
  lines = reversed_lines d 1 original.lines;
}

abbrev pub touches : ℕ → FinancialDocumentAllocation → Bool
touches key a = a.payment_document_id == key || a.target_document_id == key

-- The document on the other side of an allocation.
abbrev pub other_side : ℕ → FinancialDocumentAllocation → ℕ
other_side key a =
    if a.payment_document_id == key then a.target_document_id else a.payment_document_id

abbrev pub take_back : ℤ → FinancialDocument → FinancialDocument
take_back amount d = record d { paid_amount = max_ℤ (pos 0) (d.paid_amount -ℤ amount) }

-- `for allocation in allocations`: the other document's paid amount goes down.
unfoldable pub release :
    ℕ → List FinancialDocumentAllocation → List FinancialDocument → List FinancialDocument
release key [] docs = docs
release key (a ∷ rest) docs =
    release key rest (modify_document (other_side key a) (take_back a.allocated_amount) docs)

abbrev pub mark_reversed : FinancialDocument → FinancialDocument
mark_reversed d = record d { paid_amount = pos 0; status = DocumentStatus.reversed }

unfoldable pub reverse_posted : Request → FinancialDocument → Books → Outcome Books
unfolding reversal_entry
reverse_posted r d b = do
  posting ← or_raise (posting_of d.id b.postings) not_found
  let (period, b₁) = resolve_period r.today b
  raise_if (is_closed period.status) (conflict period_closed)
  let (number, sequences') = allocate_number (codes "JOURNAL") r.utc_year b₁.sequences
  original ← or_raise (find_entry posting.journal_entry_id b₁.entries) internal_error
  let entry = reversal_entry r d original period number b₁.next_id
  ok (record b₁ {
    sequences = sequences';
    entries = entry ∷ b₁.entries;
    next_id = b₁.next_id + 1;
    allocations = where_rows (λ a. not (touches d.id a)) b₁.allocations;
    documents =
        modify_document d.id mark_reversed
          (release d.id (where_rows (touches d.id) b₁.allocations) b₁.documents);
  })

unfoldable pub reverse_document : Request → ℕ → Books → Outcome Books
unfolding reverse_posted
reverse_document r key b = do
  d ← or_raise (find_document key b.documents) not_found
  elim d.status [
    | DocumentStatus.reversed ↦ err (conflict document_already_reversed)
    | DocumentStatus.posted ↦ reverse_posted r d b
    | _ ↦ err invalid_state
  ]

abbrev is_draft : DocumentStatus → Bool
is_draft DocumentStatus.draft = true
is_draft _ = false

abbrev pub in_keys : List ℕ → ℕ → Bool
in_keys [] key = false
in_keys (k ∷ ks) key = k == key || in_keys ks key

-- Of the documents with the given keys, the drafts are deleted; the count is returned.
unfoldable pub delete_draft_documents : List ℕ → Books → ℕ × Books
delete_draft_documents keys b =
    let doomed = λ (d : FinancialDocument). in_keys keys d.id && is_draft d.status in
    (
      length (where_rows doomed b.documents),
      record b { documents = where_rows (λ d. not (doomed d)) b.documents },
    )
