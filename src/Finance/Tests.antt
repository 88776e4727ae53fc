-- ===== src/Finance/Tests.antt =====
-- Books to run backend/app/modules/finance/service.py on: an invoice that is posted, a receipt
-- that is allocated to it, and a journal.
pub mod Documents
pub mod Engine
pub mod Entry
pub mod Rules
use lcs_system.Shared.{
  ℕ, ◌≡◌, refl, sym, ap, some-eq, arith, ◌==◌, Option, none, some, List, [], ◌∷◌, ℤ, pos, ◌+ℤ◌,
  ◌≤ℤ◌, Outcome, ok, err, All, All-first_row, codes, int_laws, true,
}
use lcs_system.Finance.Fx.{Decimal, whole}
use lcs_system.Finance.Models.{
  Date, RecordStatus, active, ChartOfAccount, DocumentType, customer_invoice, customer_receipt,
  DocumentStatus, FinancialDocument, FinancialDocumentLine, JournalEntry, JournalEntryLine,
  EntryStatus, automatic, Books, Request, manual,
}
use lcs_system.Finance.Ledger.{find_document, sum_of}
use lcs_system.Finance.Ledger.Balanced.{IsSoundBooks}
use lcs_system.Finance.Settlement.{paid_out, settled}
use lcs_system.Finance.Settlement.Subledger.{IsSubledger, IsReconciled}
use lcs_system.Finance.Journals.{JournalInput, JournalLineInput}

abbrev pub today : Date
today = record { year = 2026; month = 3; day = 14 }

abbrev pub request : Request
request = record {
  user_id = 7;
  today = today;
  utc_year = 2026;
  now = 1000;
  default_currency = codes "USD";
}

abbrev account : ℕ → List ℕ → ChartOfAccount
account key code = record {
  id = key;
  account_code = code;
  is_postable = true;
  status = RecordStatus.active;
}

abbrev document : ℕ → DocumentType → DocumentStatus → FinancialDocument
document key type status = record {
  id = key;
  document_no = codes "INV2026-000001";
  document_type = type;
  document_date = today;
  posting_date = none;
  status = status;
  party_id = none;
  service_order_id = none;
  currency_code = codes "USD";
  exchange_rate = pos 410000000000;
  base_currency_code = none;
  subtotal_amount = pos 1000000;
  discount_amount = pos 0;
  tax_amount = pos 0;
  total_amount = pos 1000000;
  base_subtotal_amount = pos 0;
  base_discount_amount = pos 0;
  base_tax_amount = pos 0;
  base_total_amount = pos 0;
  paid_amount = pos 0;
  posted_by_user_id = none;
  lines =
      record {
        fee_type_id = none;
        tax_amount = pos 0;
        line_amount = pos 1000000;
        account_id = none;
      }
      ∷ [];
}

-- A draft invoice and a posted receipt of 100 each, at a rate of 4100.
abbrev pub books : Books
books = record {
  accounts = account 1 (codes "1100") ∷ account 2 (codes "4010") ∷ account 3 (codes "1020") ∷ [];
  rules = [];
  periods = [];
  sequences = [];
  currencies = [];
  documents =
      document 1 customer_invoice DocumentStatus.draft
      ∷ document 2 customer_receipt DocumentStatus.posted
      ∷ [];
  entries = [];
  postings = [];
  allocations = [];
  next_id = 10;
}

pub books-IsSoundBooks : IsSoundBooks books
books-IsSoundBooks = record { balanced = tt; linked = tt }

-- With no allocation, documents that were paid nothing are reconciled.
IsUnpaid : FinancialDocument → Type 0
IsUnpaid d = d.paid_amount ≡ pos 0

unpaid-IsReconciled : (d : FinancialDocument) → IsUnpaid d → IsReconciled [] d
unfolding IsUnpaid paid_out settled
unpaid-IsReconciled d h = record {
  paid = rw h (grind int_laws);
  one_way = λ _. refl;
  covered = λ le. rw h le;
}

pub books-IsSubledger : IsSubledger books
unfolding IsUnpaid
books-IsSubledger = record {
  amounts = tt;
  documents = λ j d found.
      unpaid-IsReconciled d
        (All-first_row IsUnpaid (λ x. x.id == j) books.documents (refl, (refl, tt)) found);
}

abbrev line : ℕ → ℕ → ℤ → ℤ → JournalEntryLine
line number key debit credit = record {
  line_no = number;
  account_id = key;
  party_id = none;
  service_order_id = none;
  financial_document_id = some 1;
  debit_amount = debit;
  credit_amount = credit;
  currency_code = codes "USD";
  exchange_rate = pos 200000000;
  base_debit_amount = debit +ℤ debit;
  base_credit_amount = credit +ℤ credit;
}

-- The same documents with the invoice posted, its entry and its posting.
abbrev pub settled_books : Books
settled_books = record books {
  documents =
      document 1 customer_invoice DocumentStatus.posted
      ∷ document 2 customer_receipt DocumentStatus.posted
      ∷ [];
  entries =
      record {
        id = 5;
        entry_no = codes "JE2026-000001";
        entry_type = automatic;
        entry_date = today;
        posting_date = today;
        accounting_period_id = none;
        status = EntryStatus.posted;
        source_document_id = some 1;
        posting_rule_id = none;
        reversal_of_journal_entry_id = none;
        created_by_user_id = none;
        posted_by_user_id = none;
        debit_total = pos 1000000;
        credit_total = pos 1000000;
        lines = line 1 1 (pos 1000000) (pos 0) ∷ line 2 2 (pos 0) (pos 1000000) ∷ [];
      }
      ∷ [];
  postings = record { financial_document_id = 1; journal_entry_id = 5 } ∷ [];
}

pub settled_books-IsSoundBooks : IsSoundBooks settled_books
unfolding sum_of ◌+ℤ◌
settled_books-IsSoundBooks = record {
  balanced = ((λ _. record { own = refl; base = (omega arith, omega arith) }), tt);
  linked = ((omega arith, _, refl, refl, refl), tt);
}

pub settled_books-IsSubledger : IsSubledger settled_books
unfolding IsUnpaid
settled_books-IsSubledger = record {
  amounts = tt;
  documents = λ j d found.
      unpaid-IsReconciled d
        (All-first_row IsUnpaid (λ x. x.id == j) settled_books.documents (refl, (refl, tt)) found);
}

abbrev pub or_books : Outcome Books → Books
or_books (ok b) = b
or_books (err _) = books

abbrev pub journal_input : JournalInput
journal_input = record {
  id = none;
  entry_no = none;
  entry_type = manual;
  entry_date = none;
  posting_date = none;
  lines = line (pos 500) (pos 0) ∷ line (pos 0) (pos 500) ∷ [];
}
  where
    line : ℤ → ℤ → JournalLineInput
    line debit credit = record {
      account_id = some 3;
      account_code = none;
      debit_amount = debit;
      credit_amount = credit;
      exchange_rate = pos 100000000;
      currency = none;
      party = none;
      service_order = none;
    }
