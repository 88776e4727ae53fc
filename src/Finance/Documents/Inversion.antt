-- ===== src/Finance/Documents/Inversion.antt =====
-- What a call that succeeded has done, step by step.
use lcs_system.Shared.{
  ℕ, ◌+◌, ◌≡◌, refl, ◌∷◌, false, not, some, or_else, map, ok, err, raise_if-eq-ok, or_raise-eq-ok,
  >>=-eq-ok, ok-injective, ltb, length, codes, where_rows, is_found, conflict, duplicate_posting,
  period_closed, validation_failed, not_found, internal_error, invalid_state,
  document_already_reversed, inl, inr, ◌⊎◌,
}
use lcs_system.Finance.Models.{
  FinancialDocument, FinancialDocumentPosting, JournalEntry, Books, Request, DocumentStatus,
}
use lcs_system.Finance.Periods.{resolve_period}
use lcs_system.Finance.Sequences.{allocate_number}
use lcs_system.Finance.Posting.{JournalDraft, build, assert_balanced}
use lcs_system.Finance.Ledger.{find_document, find_entry, modify_document}
use lcs_system.Finance.Documents.{
  is_closed, line_input, with_base_amounts, mark_posted, posting_entry, post_draft, post_document,
  posting_of, reverse_posted, reversal_entry, release, touches, mark_reversed, reverse_document,
}

-- A posting: the period, the draft, the number and the document's base amounts.
pub record Posting (r : Request) (d : FinancialDocument) (b b' : Books) : Type 0 where
  pub draft : JournalDraft
  pub based : FinancialDocument
  pub fresh : is_found (posting_of d.id b.postings) ≡ false
  pub opened :
      is_closed (resolve_period (or_else d.posting_date d.document_date) b).0.status ≡ false
  pub built :
      build
        (resolve_period (or_else d.posting_date d.document_date) b).1
        d.document_type
        d.total_amount
        (map line_input d.lines)
      ≡ ok draft
  pub two_lines : ltb (length draft.lines) 2 ≡ false
  pub converted :
      with_base_amounts r (resolve_period (or_else d.posting_date d.document_date) b).1 d ≡ ok based
  pub balanced : assert_balanced draft ≡ ok tt
  pub after :
      let on = or_else d.posting_date d.document_date in
      let (period, b₁) = resolve_period on b in
      let (number, sequences') = allocate_number (codes "JOURNAL") r.utc_year b₁.sequences in
      let entry = posting_entry r d period on draft number b₁.next_id in
      b' ≡ record b₁ {
        sequences = sequences';
        entries = entry ∷ b₁.entries;
        next_id = b₁.next_id + 1;
        postings =
            record { financial_document_id = d.id; journal_entry_id = entry.id } ∷ b₁.postings;
        documents = modify_document d.id (λ _. mark_posted r on based) b₁.documents;
      }

pub post_draft-Posting :
    (r : Request) (d : FinancialDocument) (b : Books) {b' : Books}
    → post_draft r d b ≡ ok b'
    → Posting r d b b'
unfolding post_draft
post_draft-Posting r d b h =
    let on = or_else d.posting_date d.document_date in
    let period = (resolve_period on b).0 in
    let b₁ = (resolve_period on b).1 in
    let (fresh, h₁) =
      raise_if-eq-ok (is_found (posting_of d.id b.postings)) (conflict duplicate_posting) _ h in
    let (opened, h₂) = raise_if-eq-ok (is_closed period.status) (conflict period_closed) _ h₁ in
    let (draft, built, h₃) =
      >>=-eq-ok (build b₁ d.document_type d.total_amount (map line_input d.lines)) _ h₂ in
    let (two_lines, h₄) = raise_if-eq-ok (ltb (length draft.lines) 2) validation_failed _ h₃ in
    let (based, converted, h₅) = >>=-eq-ok (with_base_amounts r b₁ d) _ h₄ in
    let (_, balanced, h₆) = >>=-eq-ok (assert_balanced draft) _ h₅ in
    record {
      draft = draft;
      based = based;
      fresh = fresh;
      opened = opened;
      built = built;
      two_lines = two_lines;
      converted = converted;
      balanced = balanced;
      after = ok-injective h₆;
    }

-- A reversal: the posting that it undoes, the entry of that posting, and the period.
pub record Reversal (r : Request) (d : FinancialDocument) (b b' : Books) : Type 0 where
  pub posting : FinancialDocumentPosting
  pub original : JournalEntry
  pub linked : posting_of d.id b.postings ≡ some posting
  pub opened : is_closed (resolve_period r.today b).0.status ≡ false
  pub found :
      find_entry posting.journal_entry_id (resolve_period r.today b).1.entries ≡ some original
  pub after :
      let (period, b₁) = resolve_period r.today b in
      let (number, sequences') = allocate_number (codes "JOURNAL") r.utc_year b₁.sequences in
      b' ≡ record b₁ {
        sequences = sequences';
        entries = reversal_entry r d original period number b₁.next_id ∷ b₁.entries;
        next_id = b₁.next_id + 1;
        allocations = where_rows (λ a. not (touches d.id a)) b₁.allocations;
        documents =
            modify_document d.id mark_reversed
              (release d.id (where_rows (touches d.id) b₁.allocations) b₁.documents);
      }

pub reverse_posted-Reversal :
    (r : Request) (d : FinancialDocument) (b : Books) {b' : Books}
    → reverse_posted r d b ≡ ok b'
    → Reversal r d b b'
unfolding reverse_posted
reverse_posted-Reversal r d b h =
    let period = (resolve_period r.today b).0 in
    let b₁ = (resolve_period r.today b).1 in
    let (posting, linked, h₁) = or_raise-eq-ok (posting_of d.id b.postings) not_found _ h in
    let (opened, h₂) = raise_if-eq-ok (is_closed period.status) (conflict period_closed) _ h₁ in
    let (original, found, h₃) =
      or_raise-eq-ok (find_entry posting.journal_entry_id b₁.entries) internal_error _ h₂ in
    record {
      posting = posting;
      original = original;
      linked = linked;
      opened = opened;
      found = found;
      after = ok-injective h₃;
    }

-- A document that is found is a draft that is posted, or was posted before.
pub post_document-cases :
    (r : Request) (key : ℕ) (b : Books) {b' : Books}
    → post_document r key b ≡ ok b'
    → (d : FinancialDocument) × (find_document key b.documents ≡ some d)
      × (((d.status ≡ DocumentStatus.posted) × (b' ≡ b))
          ⊎ ((d.status ≡ DocumentStatus.draft) × (post_draft r d b ≡ ok b')))
unfolding post_document
post_document-cases r key b {b'} h =
    let (d, found, h₁) = or_raise-eq-ok (find_document key b.documents) not_found _ h in
    (d, found, by_status d d.status h₁)
  where
    by_status :
        (d : FinancialDocument) (s : DocumentStatus)
        → (elim s [
          | DocumentStatus.posted ↦ ok b
          | DocumentStatus.draft ↦ post_draft r d b
          | _ ↦ err invalid_state
        ])
          ≡ ok b'
        → ((s ≡ DocumentStatus.posted) × (b' ≡ b))
          ⊎ ((s ≡ DocumentStatus.draft) × (post_draft r d b ≡ ok b'))
    by_status d DocumentStatus.posted h' = inl (refl, ok-injective h')
    by_status d DocumentStatus.draft h' = inr (refl, h')
    by_status d DocumentStatus.reversed h' = cc
    by_status d DocumentStatus.unknown h' = cc

pub reverse_document-cases :
    (r : Request) (key : ℕ) (b : Books) {b' : Books}
    → reverse_document r key b ≡ ok b'
    → (d : FinancialDocument) × (find_document key b.documents ≡ some d)
      × (d.status ≡ DocumentStatus.posted)
      × (reverse_posted r d b ≡ ok b')
unfolding reverse_document
reverse_document-cases r key b {b'} h =
    let (d, found, h₁) = or_raise-eq-ok (find_document key b.documents) not_found _ h in
    let (p, h₂) = by_status d d.status h₁ in (d, found, p, h₂)
  where
    by_status :
        (d : FinancialDocument) (s : DocumentStatus)
        → (elim s [
          | DocumentStatus.reversed ↦ err (conflict document_already_reversed)
          | DocumentStatus.posted ↦ reverse_posted r d b
          | _ ↦ err invalid_state
        ])
          ≡ ok b'
        → (s ≡ DocumentStatus.posted) × (reverse_posted r d b ≡ ok b')
    by_status d DocumentStatus.posted h' = (refl, h')
    by_status d DocumentStatus.draft h' = cc
    by_status d DocumentStatus.reversed h' = cc
    by_status d DocumentStatus.unknown h' = cc
