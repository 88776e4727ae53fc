-- ===== src/Finance/Entry/Payload.antt =====
-- The payload of `save_document` of backend/app/modules/finance/service.py, and the checks made of it
-- before a document is written. The rows of other modules that a save reads (document types, service
-- orders, parties, rates) are an argument.
use lcs_system.Shared.{
  ℕ, ◌==◌, if◌then◌else◌, Bool, true, false, ◌&&◌, ◌||◌, not, Option, none, some, or_else, List, [],
  ◌∷◌, Outcome, ok, err, ◌>>=◌, ◌>>◌, raise_if, or_raise, validation_failed, first_row, is_empty,
  is_found, Text,
}
use lcs_system.Finance.Fx.{Value}
use lcs_system.Finance.Models.{Date, DocumentType, customer_invoice, FinancialDocument}
use lcs_system.Finance.Periods.{leb_date}
use lcs_system.Finance.PostingRules.{same_type}
use lcs_system.Finance.Ledger.{find_document}
use lcs_system.Finance.Entry.{LineInput}
use lcs_system.Finance.Entry.Rates.{CurrencyRate}

-- A row of the administrator's document types; `code` and `accounting_behavior` are read as types.
pub record DocumentTypeRow : Type 0 where
  pub id : ℕ
  pub code : DocumentType
  pub accounting_behavior : DocumentType
  pub is_finance : Bool
  pub in_financial_documents : Bool
  pub is_active : Bool
  pub is_deleted : Bool

-- What a save reads of the other modules.
pub record EntryTables : Type 0 where
  pub types : List DocumentTypeRow
  pub orders : List ℕ
  -- the keys of parties, and whether each is active
  pub parties : List (ℕ × Bool)
  pub rates : List CurrencyRate

-- The `id` of a payload.
pub data GivenKey : Type 0 where
  no_key : GivenKey
  key : ℕ → GivenKey
  no_number : GivenKey

-- A validated payload: `document_type` is `documentType`, which is also the type that is asked for. A
-- date is blank, a date, or a text that is none; a blank text is none.
pub record DocumentInput : Type 0 where
  pub id : GivenKey
  pub document_type : Option DocumentType
  pub document_type_id : Option ℕ
  pub document_no : Option Text
  pub date : Option (Option Date)
  pub document_date : Option (Option Date)
  pub posting_date : Option (Option Date)
  pub due_date : Option (Option Date)
  pub value_date : Option (Option Date)
  pub party_id : Option ℕ
  pub service_order_id : Option ℕ
  pub currency : Option Text
  pub exchange_rate : Value
  pub lines : List LineInput

abbrev type_row :
    List DocumentTypeRow → DocumentInput → DocumentType → Outcome (Option DocumentTypeRow)
type_row types input t = elim input.document_type_id [
  | some row_id ↦ elim (first_row (λ r. r.id == row_id) types) [
    | none ↦ err validation_failed
    | some r ↦ if r.is_active then ok (some r) else err validation_failed
  ]
  | none ↦
      if is_found input.document_type
      then ok (first_row (λ r. same_type r.code t && not r.is_deleted) types)
      else ok none
]

-- The accounting code of a document: the behaviour of its row, if it has one.
unfoldable pub resolve_type : List DocumentTypeRow → DocumentInput → Outcome DocumentType
resolve_type types input = do
  let t = or_else input.document_type customer_invoice
  row ← type_row types input t
  elim row [
    | none ↦ ok t
    | some r ↦
        if r.is_finance && r.in_financial_documents
        then ok r.accounting_behavior
        else err validation_failed
  ]

abbrev is_unreadable : Option (Option Date) → Bool
is_unreadable (some none) = true
is_unreadable _ = false

abbrev pub date_of : Option (Option Date) → Option Date
date_of none = none
date_of (some d) = d

-- `_date(data.get("documentDate") or data.get("date"))`
abbrev pub issued_on : DocumentInput → Option Date
issued_on input =
    if is_found input.document_date then date_of input.document_date else date_of input.date

abbrev due_too_early : Option Date → Option Date → Bool
due_too_early (some issued) (some due) = not (leb_date issued due)
due_too_early _ _ = false

unfoldable pub check_dates : DocumentInput → Outcome (Unit {0})
check_dates input = do
  raise_if
      (is_unreadable input.date
        || is_unreadable input.document_date
        || is_unreadable input.posting_date
        || is_unreadable input.due_date
        || is_unreadable input.value_date)
      validation_failed
  raise_if (due_too_early (issued_on input) (date_of input.due_date)) validation_failed

-- `if document_id and str(document_id).isdigit()`: a key of 0 finds nothing.
abbrev pub given_document : GivenKey → List FinancialDocument → Option FinancialDocument
given_document (key k) docs = if k == 0 then none else find_document k docs
given_document _ docs = none

abbrev pub is_new : GivenKey → Bool
is_new no_key = true
is_new _ = false

abbrev is_member : ℕ → List ℕ → Bool
is_member k [] = false
is_member k (x ∷ xs) = k == x || is_member k xs

abbrev active_party : List (ℕ × Bool) → ℕ → Bool
active_party [] k = false
active_party ((party, live) ∷ rest) k = if party == k then live else active_party rest k

-- An entry by hand for a service order: one that exists, an active party, and a line at least.
unfoldable pub check_manual : EntryTables → DocumentInput → Outcome (Unit {0})
check_manual tables input = elim input.service_order_id [
  | none ↦ ok tt
  | some order ↦ if not (is_new input.id) then ok tt else do
    raise_if (not (is_member order tables.orders)) validation_failed
    party ← or_raise input.party_id validation_failed
    raise_if (not (active_party tables.parties party)) validation_failed
    raise_if (is_empty input.lines) validation_failed
]
