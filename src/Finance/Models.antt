-- ===== src/Finance/Models.antt =====
-- backend/app/modules/finance/models.py: the rows that the engine reads and writes.
-- A money column, Numeric(19, 4), is its coefficient: an integer count of ten-thousandths. A rate
-- column, Numeric(19, 8), is an integer count of 10^-8. The rows that a foreign key ties to a
-- document or an entry (its lines) stand in it. Free text that nothing reads back, time stamps, the
-- payload JSON and the 19 digits of a column are left out.
use lcs_system.Shared.{ℕ, ℤ, Bool, Option, List, Text}

pub record Date : Type 0 where
  pub year : ℕ
  pub month : ℕ
  pub day : ℕ

pub data RecordStatus : Type 0 where
  active inactive : RecordStatus

pub record ChartOfAccount : Type 0 where
  pub id : ℕ
  pub account_code : Text
  pub is_postable : Bool
  pub status : RecordStatus

pub data PeriodStatus : Type 0 where
  opened closed reopened : PeriodStatus

pub record AccountingPeriod : Type 0 where
  pub id : ℕ
  pub period_year : ℕ
  pub period_month : ℕ
  pub start_date : Date
  pub end_date : Date
  pub status : PeriodStatus
  pub closed_by_user_id : Option ℕ
  pub closed_at : Option ℕ

pub record DocumentSequence : Type 0 where
  pub document_type : Text
  pub period_year : ℕ
  pub prefix : Text
  pub last_value : ℕ
  pub padding_length : ℕ
  pub status : RecordStatus

-- The types of `STRATEGIES`; `other` is any other text, by a number.
pub data DocumentType : Type 0 where
  customer_invoice credit_note supplier_bill supplier_credit_note : DocumentType
  customer_receipt supplier_payment other_income other_expense : DocumentType
  transfer adjustment : DocumentType
  other : ℕ → DocumentType

pub data DocumentStatus : Type 0 where
  draft posted reversed unknown : DocumentStatus

pub record FinancialDocumentLine : Type 0 where
  pub fee_type_id : Option ℕ
  pub tax_amount : ℤ
  pub line_amount : ℤ
  pub account_id : Option ℕ

pub record FinancialDocument : Type 0 where
  pub id : ℕ
  pub document_no : Text
  pub document_type : DocumentType
  pub document_date : Date
  pub posting_date : Option Date
  pub status : DocumentStatus
  pub party_id : Option ℕ
  pub service_order_id : Option ℕ
  pub currency_code : Text
  pub exchange_rate : ℤ
  pub base_currency_code : Option Text
  pub subtotal_amount : ℤ
  pub discount_amount : ℤ
  pub tax_amount : ℤ
  pub total_amount : ℤ
  pub base_subtotal_amount : ℤ
  pub base_discount_amount : ℤ
  pub base_tax_amount : ℤ
  pub base_total_amount : ℤ
  pub paid_amount : ℤ
  pub posted_by_user_id : Option ℕ
  pub lines : List FinancialDocumentLine

pub record FinancialDocumentAllocation : Type 0 where
  pub payment_document_id : ℕ
  pub target_document_id : ℕ
  pub allocated_amount : ℤ
  pub allocated_currency_code : Text
  pub exchange_rate : ℤ
  pub created_by_user_id : ℕ
  pub idempotency_key : Option Text

pub record PostingRule : Type 0 where
  pub id : ℕ
  pub document_type : DocumentType
  pub fee_type_id : Option ℕ
  pub debit_account_id : ℕ
  pub credit_account_id : ℕ
  pub tax_account_id : Option ℕ
  pub status : RecordStatus
  pub priority : ℤ

pub record JournalEntryLine : Type 0 where
  pub line_no : ℕ
  pub account_id : ℕ
  pub party_id : Option ℕ
  pub service_order_id : Option ℕ
  pub financial_document_id : Option ℕ
  pub debit_amount : ℤ
  pub credit_amount : ℤ
  pub currency_code : Text
  pub exchange_rate : ℤ
  pub base_debit_amount : ℤ
  pub base_credit_amount : ℤ

pub data EntryType : Type 0 where
  automatic manual reversal : EntryType

pub data EntryStatus : Type 0 where
  draft posted unknown : EntryStatus

pub record JournalEntry : Type 0 where
  pub id : ℕ
  pub entry_no : Text
  pub entry_type : EntryType
  pub entry_date : Date
  pub posting_date : Date
  pub accounting_period_id : Option ℕ
  pub status : EntryStatus
  pub source_document_id : Option ℕ
  pub posting_rule_id : Option ℕ
  pub reversal_of_journal_entry_id : Option ℕ
  pub created_by_user_id : Option ℕ
  pub posted_by_user_id : Option ℕ
  pub debit_total : ℤ
  pub credit_total : ℤ
  pub lines : List JournalEntryLine

pub record FinancialDocumentPosting : Type 0 where
  pub financial_document_id : ℕ
  pub journal_entry_id : ℕ

pub record Currency : Type 0 where
  pub code : Text
  pub decimal_places : ℕ
  pub status : RecordStatus

-- The tables, and a key above every key in use.
pub record Books : Type 0 where
  pub accounts : List ChartOfAccount
  pub rules : List PostingRule
  pub periods : List AccountingPeriod
  pub sequences : List DocumentSequence
  pub currencies : List Currency
  pub documents : List FinancialDocument
  pub entries : List JournalEntry
  pub postings : List FinancialDocumentPosting
  pub allocations : List FinancialDocumentAllocation
  pub next_id : ℕ

-- What a request brings: the caller, the clock, and the configured base currency.
pub record Request : Type 0 where
  pub user_id : ℕ
  pub today : Date
  pub utc_year : ℕ
  pub now : ℕ
  pub default_currency : Text
