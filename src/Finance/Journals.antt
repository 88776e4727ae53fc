-- ===== src/Finance/Journals.antt =====
-- `save_journal`, `post_journal` and `delete_journals` of backend/app/modules/finance/service.py.
pub mod Soundness
pub mod Edits
use lcs_system.Shared.{
  ℕ, zero, suc, ◌+◌, ltb, leb, ◌==◌, if◌then◌else◌, Bool, true, false, ◌&&◌, ◌||◌, not, Option,
  none, some, or_else, List, [], ◌∷◌, ◌++◌, ℤ, pos, ◌+ℤ◌, ltb_ℤ, leb_ℤ, eqb_ℤ, Outcome, ok, err,
  ◌>>=◌, ◌>>◌, raise_if, or_raise, not_found, invalid_state, validation_failed, conflict,
  journal_unbalanced, period_closed, first_row, where_rows, length, is_empty, Text, codes, strip,
  upper, text_eqb,
}
use lcs_system.Finance.Models.{
  Date, AccountingPeriod, ChartOfAccount, JournalEntry, JournalEntryLine, EntryType, manual,
  EntryStatus, Books, Request, Currency, DocumentSequence,
}
use lcs_system.Finance.Periods.{resolve_period, find_period}
use lcs_system.Finance.Sequences.{allocate_number}
use lcs_system.Finance.PostingRules.{validate_postable, account_by_id, account_by_code, is_active}
use lcs_system.Finance.Documents.{is_closed}
use lcs_system.Finance.Ledger.{
  find_entry, modify_entry, debits, credits, base_debits, base_credits, base_amount,
}

-- Exactly one positive side, and no negative one.
abbrev pub one_sided : ℤ → ℤ → Bool
one_sided debit credit =
    not (ltb_ℤ debit (pos 0))
    && not (ltb_ℤ credit (pos 0))
    && ((ltb_ℤ (pos 0) debit && not (ltb_ℤ (pos 0) credit))
        || (not (ltb_ℤ (pos 0) debit) && ltb_ℤ (pos 0) credit))

unfoldable pub check_lines : List JournalEntryLine → Outcome (Unit {0})
check_lines [] = ok tt
check_lines (l ∷ ls) =
    raise_if (not (one_sided l.debit_amount l.credit_amount)) validation_failed >> check_lines ls

abbrev pub in_closed_period : Option ℕ → List AccountingPeriod → Bool
in_closed_period none periods = false
in_closed_period (some key) periods = elim (find_period key periods) [
  | none ↦ false
  | some p ↦ is_closed p.status
]

abbrev pub entry_posted : Request → JournalEntry → JournalEntry
entry_posted r e = record e {
  status = EntryStatus.posted;
  posted_by_user_id = some r.user_id;
  debit_total = debits e.lines;
  credit_total = credits e.lines;
}

unfoldable pub post_entry : Request → JournalEntry → Books → Outcome Books
unfolding check_lines
post_entry r e b = do
  raise_if (ltb (length e.lines) 2) validation_failed
  check_lines e.lines
  raise_if (not (eqb_ℤ (debits e.lines) (credits e.lines)) || eqb_ℤ (debits e.lines) (pos 0))
      (conflict journal_unbalanced)
  raise_if (not (eqb_ℤ (base_debits e.lines) (base_credits e.lines))) (conflict journal_unbalanced)
  raise_if (in_closed_period e.accounting_period_id b.periods) (conflict period_closed)
  ok (record b { entries = modify_entry e.id (entry_posted r) b.entries })

unfoldable pub post_journal : Request → ℕ → Books → Outcome Books
unfolding post_entry
post_journal r key b = do
  e ← or_raise (find_entry key b.entries) not_found
  elim e.status [
    | EntryStatus.posted ↦ ok b
    | EntryStatus.draft ↦ post_entry r e b
    | EntryStatus.unknown ↦ err invalid_state
  ]

-- A line as the validated payload gives it: decimals parsed, a missing rate read as 1.
pub record JournalLineInput : Type 0 where
  pub account_id : Option ℕ
  pub account_code : Option Text
  pub debit_amount : ℤ
  pub credit_amount : ℤ
  pub exchange_rate : ℤ
  pub currency : Option Text
  pub party : Option ℕ
  pub service_order : Option ℕ

pub record JournalInput : Type 0 where
  pub id : Option ℕ
  pub entry_no : Option Text
  pub entry_type : EntryType
  pub entry_date : Option Date
  pub posting_date : Option Date
  pub lines : List JournalLineInput

abbrev by_code : List ChartOfAccount → Option Text → Option ChartOfAccount
by_code accounts none = none
by_code accounts (some []) = none
by_code accounts (some code) = account_by_code accounts code

-- By key if that finds a row, else by code.
abbrev input_account : List ChartOfAccount → JournalLineInput → Option ChartOfAccount
input_account accounts l = elim l.account_id [
  | none ↦ by_code accounts l.account_code
  | some key ↦ elim (account_by_id accounts key) [
    | some a ↦ some a
    | none ↦ by_code accounts l.account_code
  ]
]

abbrev is_letter : ℕ → Bool
is_letter c = (leb 65 c && leb c 90) || (leb 97 c && leb c 122)

abbrev is_alpha : Text → Bool
is_alpha [] = true
is_alpha (c ∷ s) = is_letter c && is_alpha s

abbrev archived : Text → List Currency → Bool
archived code rows = elim (first_row (λ c. text_eqb c.code code) rows) [
  | none ↦ false
  | some c ↦ not (is_active c.status)
]

-- `assert_currency_code` of backend/app/modules/master_data/currency_rates.py
unfoldable pub assert_currency_code : List Currency → Text → Outcome Text
assert_currency_code rows code = do
  let value = upper (strip code)
  raise_if (not (length value == 3) || not (is_alpha value)) validation_failed
  raise_if (archived value rows) validation_failed
  ok value

abbrev currency_or : Option Text → Text → Text
currency_or none d = d
currency_or (some []) d = d
currency_or (some t) d = t

-- One line of the loop, at its index.
unfoldable pub journal_line : Request → Books → ℕ → JournalLineInput → Outcome JournalEntryLine
unfolding assert_currency_code
journal_line r b index l = do
  found ← or_raise (input_account b.accounts l) validation_failed
  account ← validate_postable (some found)
  raise_if (ltb_ℤ l.debit_amount (pos 0) || ltb_ℤ l.credit_amount (pos 0)) validation_failed
  raise_if (not (one_sided l.debit_amount l.credit_amount)) validation_failed
  raise_if (leb_ℤ l.exchange_rate (pos 0)) validation_failed
  code ← assert_currency_code b.currencies (currency_or l.currency r.default_currency)
  ok (record {
    line_no = index + 1;
    account_id = account.id;
    party_id = l.party;
    service_order_id = l.service_order;
    financial_document_id = none;
    debit_amount = l.debit_amount;
    credit_amount = l.credit_amount;
    currency_code = code;
    exchange_rate = l.exchange_rate;
    base_debit_amount = base_amount l.debit_amount l.exchange_rate;
    base_credit_amount = base_amount l.credit_amount l.exchange_rate;
  })

unfoldable pub journal_lines :
    Request → Books → ℕ → List JournalLineInput → Outcome (List JournalEntryLine)
unfolding journal_line
journal_lines r b index [] = ok []
journal_lines r b index (l ∷ ls) =
    journal_line r b index l >>= λ row. journal_lines r b (suc index) ls >>= λ rows. ok (row ∷ rows)

abbrev blank : Option Text → Bool
blank none = true
blank (some t) = is_empty (strip t)

-- The number that the caller gives, or the next one.
abbrev pub entry_number :
    Request → Option Text → List DocumentSequence → Text × List DocumentSequence
entry_number r given sequences =
    let allocated = allocate_number (codes "JOURNAL") r.utc_year sequences in
    if blank given then allocated else (or_else given [], sequences)

abbrev with_lines : List JournalEntryLine → JournalEntry → JournalEntry
with_lines rows e = record e {
  debit_total = debits rows;
  credit_total = credits rows;
  lines = rows;
}

abbrev pub create_entry :
    Request → JournalInput → AccountingPeriod → Date → Date → Books → Outcome Books
create_entry r input period entry_date posting_date b =
    let (number, sequences') = entry_number r input.entry_no b.sequences in
    journal_lines r b 0 input.lines >>= λ rows. ok (record b {
      sequences = sequences';
      next_id = b.next_id + 1;
      entries =
          with_lines rows (record {
            id = b.next_id;
            entry_no = number;
            entry_type = input.entry_type;
            entry_date = entry_date;
            posting_date = posting_date;
            accounting_period_id = some period.id;
            status = EntryStatus.draft;
            source_document_id = none;
            posting_rule_id = none;
            reversal_of_journal_entry_id = none;
            created_by_user_id = some r.user_id;
            posted_by_user_id = none;
            debit_total = pos 0;
            credit_total = pos 0;
            lines = [];
          })
          ∷ b.entries;
    })

abbrev pub is_posted_entry : EntryStatus → Bool
is_posted_entry EntryStatus.posted = true
is_posted_entry _ = false

abbrev redate : AccountingPeriod → Date → Date → JournalEntry → JournalEntry
redate period entry_date posting_date e = record e {
  entry_date = entry_date;
  posting_date = posting_date;
  accounting_period_id = some period.id;
}

abbrev pub update_entry :
    Request → JournalInput → JournalEntry → AccountingPeriod → Date → Date → Books → Outcome Books
update_entry r input e period entry_date posting_date b = do
  raise_if (is_posted_entry e.status) invalid_state
  rows ← journal_lines r b 0 input.lines
  ok (record b {
    entries =
        modify_entry e.id (λ old. with_lines rows (redate period entry_date posting_date old))
          b.entries;
  })

abbrev pub existing : Option ℕ → List JournalEntry → Option JournalEntry
existing none rows = none
existing (some key) rows = find_entry key rows

unfoldable pub save_journal : Request → JournalInput → Books → Outcome Books
unfolding journal_lines
save_journal r input b =
    let entry_date = or_else input.entry_date r.today in
    let posting_date = or_else input.posting_date entry_date in
    let (period, b₁) = resolve_period posting_date b in
    elim (existing input.id b₁.entries) [
      | none ↦ create_entry r input period entry_date posting_date b₁
      | some e ↦ update_entry r input e period entry_date posting_date b₁
    ]

-- Each entry is deleted in turn; a posted one refuses the whole call.
unfoldable pub delete_journals : List ℕ → Books → Outcome Books
delete_journals [] b = ok b
delete_journals (key ∷ keys) b =
    let rest = λ (b' : Books). delete_journals keys b' in
    elim (find_entry key b.entries) [
      | none ↦ rest b
      | some e ↦
          raise_if (is_posted_entry e.status) invalid_state
          >> rest (record b { entries = where_rows (λ x. not (x.id == key)) b.entries })
    ]
