-- ===== src/Finance/Entry/Saved.antt =====
-- The books after `save_document` of backend/app/modules/finance/service.py.
use lcs_system.Shared.{
  ℕ, suc, ◌==◌, ◌<◌, ◌≡◌, ◌≢◌, false, refl, sym, ◌∙◌, some-eq, eqb→eq, Option-cases, Option, none,
  some, List, map, ℤ, Outcome, ok, validation_failed, invalid_state, not, raise_if-eq-ok, >>=-eq-ok,
  ok-injective, length, All, arith, inl, inr, Bool-cases,
}
use lcs_system.Finance.Models.{DocumentStatus, DocumentType, FinancialDocument, Books, Request}
use lcs_system.Finance.Ledger.{find_document, modify_document, money_column}
use lcs_system.Finance.Ledger.Balanced.{IsWithin}
use lcs_system.Finance.Ledger.Rows.{find_document-modify, found_document_by_own_key}
use lcs_system.Finance.PostingRules.Administration.{is_known}
use lcs_system.Finance.Entry.{EntryLine, entry_lines, exact_amount}
use lcs_system.Finance.Entry.Rates.{CurrencyInputs, document_currency_inputs}
use lcs_system.Finance.Entry.Payload.{
  EntryTables, DocumentInput, GivenKey, key, no_key, no_number, given_document, resolve_type,
  check_dates, check_manual, issued_on,
}
use lcs_system.Finance.Entry.Save.{
  exact_total, with_totals, new_document, edited, numbered, unpaid_manual, is_draft_status,
  other_type, create_document, edit_document, save_document, converted, sum_lines, currency_of,
  date_for, stored_rate,
}
use lcs_system.Finance.Entry.Totals.{
  IsPriced, entry_lines-IsPriced, sum_amounts, sum_amounts-IsWithin, IsCharge, rows-IsCharge,
}

-- A draft whose lines charge nothing negative and sum to its total, up to half of the last place for
-- each line and one more.
pub record IsEntered (d : FinancialDocument) : Type 0 where
  pub draft : d.status ≡ DocumentStatus.draft
  pub charges : All IsCharge d.lines
  pub total : IsWithin (suc (length d.lines)) (sum_amounts d.lines) d.total_amount

-- What `with_totals` writes, and what it leaves.
record IsTotalled (ls : List EntryLine) (d d' : FinancialDocument) : Type 0 where
  key : d'.id ≡ d.id
  status : d'.status ≡ d.status
  lines : d'.lines ≡ map (λ l. l.row) ls
  total : d'.total_amount ≡ money_column (exact_amount (exact_total ls))

with_totals-IsTotalled :
    (money : CurrencyInputs) (ls : List EntryLine) (d : FinancialDocument) {d' : FinancialDocument}
    → with_totals money ls d ≡ ok d'
    → IsTotalled ls d d'
unfolding with_totals
with_totals-IsTotalled money ls d h =
    let column : (EntryLine → ℤ) → Outcome ℤ =
      λ f. converted (exact_amount (sum_lines f ls)) money in
    let (subtotal, _, h₁) = >>=-eq-ok (column (λ l. l.base)) _ h in
    let (discount, _, h₂) = >>=-eq-ok (column (λ l. l.discount)) _ h₁ in
    let (tax, _, h₃) = >>=-eq-ok (column (λ l. l.tax)) _ h₂ in
    let (total, _, h₄) = >>=-eq-ok (converted (exact_amount (exact_total ls)) money) _ h₃ in
    rw (ok-injective h₄) (record { key = refl; status = refl; lines = refl; total = refl })

IsTotalled-IsEntered :
    {ls : List EntryLine} {d d' : FinancialDocument}
    → All IsPriced ls
    → d.status ≡ DocumentStatus.draft
    → IsTotalled ls d d'
    → IsEntered d'
IsTotalled-IsEntered {ls} priced draft h = record {
  draft = cc (h.status, draft);
  charges = rw h.lines (rows-IsCharge ls priced);
  total = rw (h.lines, h.total) (sum_amounts-IsWithin ls priced);
}

-- The books after a document is written under a key: its row, and every other row as it was.
record IsWritten (key : ℕ) (b b' : Books) : Type 0 where
  document : FinancialDocument
  here : find_document key b'.documents ≡ some document
  entered : IsEntered document
  others : (j : ℕ) → (j == key) ≡ false → find_document j b'.documents ≡ find_document j b.documents
  entries : b'.entries ≡ b.entries

draft_status : (s : DocumentStatus) → not (is_draft_status s) ≡ false → s ≡ DocumentStatus.draft
draft_status s h = ground arith

modified_here :
    (d d' : FinancialDocument) (docs : List FinancialDocument)
    → find_document d.id docs ≡ some d
    → d'.id ≡ d.id
    → find_document d.id (modify_document d.id (λ _. d') docs) ≡ some d'
modified_here d d' docs found kept =
    ground (arith, find_document-modify d.id (λ _. d') (λ _ _. kept) d.id docs)

create_document-IsWritten :
    (r : Request) (input : DocumentInput) (t : DocumentType) (money : CurrencyInputs) (b : Books)
    {b' : Books}
    → create_document r input t money b ≡ ok b'
    → IsWritten b.next_id b b'
unfolding create_document
create_document-IsWritten r input t money b h =
    let (number, _) = numbered r t input.document_no b.sequences in
    let row = new_document r input t money number b.next_id in
    let (_, h₁) = raise_if-eq-ok (not (is_known t)) validation_failed _ h in
    let (ls, read, h₂) = >>=-eq-ok (entry_lines b.accounts input.lines) _ h₁ in
    let (_, h₃) = raise_if-eq-ok (unpaid_manual input ls) validation_failed _ h₂ in
    let (d, written, h₄) = >>=-eq-ok (with_totals money ls row) _ h₃ in
    let totalled = with_totals-IsTotalled money ls row written in
    let key = totalled.key in
    rw (ok-injective h₄) (record {
      document = d;
      here = ground arith;
      entered =
          IsTotalled-IsEntered (entry_lines-IsPriced b.accounts input.lines read) refl totalled;
      others = λ j other. ground arith;
      entries = refl;
    })

edit_document-IsWritten :
    (input : DocumentInput) (t : DocumentType) (money : CurrencyInputs) (d : FinancialDocument)
    (b : Books) {b' : Books}
    → find_document d.id b.documents ≡ some d
    → edit_document input t money d b ≡ ok b'
    → (d.status ≡ DocumentStatus.draft) × IsWritten d.id b b'
unfolding edit_document
edit_document-IsWritten input t money d b found h =
    let (is_draft, h₁) = raise_if-eq-ok (not (is_draft_status d.status)) invalid_state _ h in
    let (_, h₂) = raise_if-eq-ok (other_type input t d) validation_failed _ h₁ in
    let (ls, read, h₃) = >>=-eq-ok (entry_lines b.accounts input.lines) _ h₂ in
    let (_, h₄) = raise_if-eq-ok (unpaid_manual input ls) validation_failed _ h₃ in
    let (saved, written, h₅) = >>=-eq-ok (with_totals money ls (edited input money d)) _ h₄ in
    let totalled = with_totals-IsTotalled money ls (edited input money d) written in
    let after = find_document-modify d.id (λ _. saved) (λ _ _. totalled.key) in
    (
      draft_status d.status is_draft,
      rw (ok-injective h₅) (record {
        document = saved;
        here = modified_here d saved b.documents found totalled.key;
        entered =
            IsTotalled-IsEntered (entry_lines-IsPriced b.accounts input.lines read) refl totalled;
        others = λ j other. rw (after j b.documents, other) refl;
        entries = refl;
      }),
    )

given_document-key :
    (given : GivenKey) (docs : List FinancialDocument) {d : FinancialDocument}
    → given_document given docs ≡ some d
    → find_document d.id docs ≡ some d
given_document-key no_key docs h = cc
given_document-key no_number docs h = cc
given_document-key (key k) docs {d} h = elim (Bool-cases (k == 0)) [
  | inl p ↦ ground (arith, h, p)
  | inr p ↦ found_document_by_own_key k docs d (ground (arith, h, p))
]

-- The key of the document that a save writes: the given one, if it finds a document, or a new one.
unfoldable pub saved_key : DocumentInput → Books → ℕ
saved_key input b = elim (given_document input.id b.documents) [ none ↦ b.next_id | some d ↦ d.id ]

-- A document that a save finds is a draft, and the one it leaves is written under the same key.
record IsSave (input : DocumentInput) (b b' : Books) : Type 0 where
  written : IsWritten (saved_key input b) b b'
  draft :
      (d : FinancialDocument)
      → given_document input.id b.documents ≡ some d
      → d.status ≡ DocumentStatus.draft

written_or_refused :
    (r : Request) (input : DocumentInput) (t : DocumentType) (money : CurrencyInputs) (b : Books)
    {b' : Books} (stored : Option FinancialDocument)
    → given_document input.id b.documents ≡ stored
    → (elim stored [
      | none ↦ create_document r input t money b
      | some d ↦ edit_document input t money d b
    ])
      ≡ ok b'
    → IsSave input b b'
unfolding saved_key
written_or_refused r input t money b none given h = record {
  written = rw (saved_key, given) (create_document-IsWritten r input t money b h);
  draft = λ d found. cc;
}
written_or_refused r input t money b (some d) given h =
    let found = given_document-key input.id b.documents given in
    let (draft, written) = edit_document-IsWritten input t money d b found h in
    record { written = rw (saved_key, given) written; draft = λ d' found'. cc }

save_document-IsSave :
    (r : Request) (tables : EntryTables) (input : DocumentInput) (b : Books) {b' : Books}
    → save_document r tables input b ≡ ok b'
    → IsSave input b b'
unfolding save_document
save_document-IsSave r tables input b h =
    let (t, _, h₁) = >>=-eq-ok (resolve_type tables.types input) _ h in
    let (_, _, h₂) = >>=-eq-ok (check_dates input) _ h₁ in
    let (_, _, h₃) = >>=-eq-ok (check_manual tables input) _ h₂ in
    let stored = given_document input.id b.documents in
    let (money, _, h₄) =
      >>=-eq-ok
        (document_currency_inputs b.currencies tables.rates input.exchange_rate
          (currency_of stored input.currency r.default_currency) r.default_currency
          (date_for stored (issued_on input) r.today) (stored_rate stored))
        _ h₃ in
    written_or_refused r input t money b (given_document input.id b.documents) refl h₄

-- A save that succeeds leaves, under the key of the document that the payload names or else under
-- the next free key, a draft whose line amounts and line taxes are not negative, and whose total
-- differs from the sum of the line amounts by at most half of the last decimal place for each line
-- and one more.
pub save_document-IsEntered :
    (r : Request) (tables : EntryTables) (input : DocumentInput) (b : Books) {b' : Books}
    → save_document r tables input b ≡ ok b'
    → (d : FinancialDocument) × (find_document (saved_key input b) b'.documents ≡ some d)
      × IsEntered d
save_document-IsEntered r tables input b h =
    let written = (save_document-IsSave r tables input b h).written in
    (written.document, written.here, written.entered)

-- Two documents of which one alone is a draft have different keys.
differs :
    (j : ℕ) (d d' : FinancialDocument) (docs : List FinancialDocument)
    → find_document j docs ≡ some d
    → find_document d'.id docs ≡ some d'
    → d'.status ≡ DocumentStatus.draft
    → d.status ≢ DocumentStatus.draft
    → (j == d'.id) ≡ false
differs j d d' docs found found' draft posted = elim (Bool-cases (j == d'.id)) [
  | inl p ↦
      let same : some d' ≡ some d = sym found' ∙ rw (sym (eqb→eq j d'.id p)) found in
      absurd (posted (rw (sym (some-eq same)) draft))
  | inr p ↦ p
]

not_saved_key :
    (input : DocumentInput) (b : Books) {b' : Books} (j : ℕ) (d : FinancialDocument)
    → IsSave input b b'
    → find_document j b.documents ≡ some d
    → d.status ≢ DocumentStatus.draft
    → j < b.next_id
    → (j == saved_key input b) ≡ false
unfolding saved_key
not_saved_key input b j d save found posted fresh =
    elim (Option-cases (given_document input.id b.documents)) [
      | inl p ↦ rw (saved_key, p) (ground arith)
      | inr (d', p) ↦
          let own = given_document-key input.id b.documents p in
          rw (saved_key, p) (differs j d d' b.documents found own (save.draft d' p) posted)
    ]

-- A save that succeeds changes no journal entry and no document that is not a draft, when the
-- document's key is below the next free one.
pub save_document-keeps :
    (r : Request) (tables : EntryTables) (input : DocumentInput) (b : Books) {b' : Books}
    → save_document r tables input b ≡ ok b'
    → (j : ℕ) (d : FinancialDocument) → find_document j b.documents ≡ some d
    → d.status ≢ DocumentStatus.draft
    → j < b.next_id
    → (find_document j b'.documents ≡ some d) × (b'.entries ≡ b.entries)
save_document-keeps r tables input b h j d found posted fresh =
    let save = save_document-IsSave r tables input b h in
    let other = not_saved_key input b j d save found posted fresh in
    (save.written.others j other ∙ found, save.written.entries)
