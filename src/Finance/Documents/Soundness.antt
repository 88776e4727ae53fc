-- ===== src/Finance/Documents/Soundness.antt =====
-- The ledger after a document is posted or reversed.
use native.Mathlib.Nat.{le_trans}
use lcs_system.Shared.{
  ℕ, ◌≡◌, refl, ok, All, inl, inr, arith, ◌∷◌, All-imp, All-first_row, ◌⊎◌, ◌≤◌, ◌+◌, or_else, sym,
  ◌∙◌, some-eq, subst, codes,
}
use lcs_system.Finance.Models.{
  Date, FinancialDocument, FinancialDocumentPosting, JournalEntry, Books, Request, DocumentStatus,
  EntryStatus,
}
use lcs_system.Finance.Periods.{resolve_period}
use lcs_system.Finance.Sequences.{allocate_number}
use lcs_system.Finance.Posting.{JournalDraft, assert_balanced, debit_total, credit_total}
use lcs_system.Finance.Ledger.Balanced.{IsSound, IsLinked, IsSoundBooks}
use lcs_system.Finance.Documents.{
  post_draft, post_document, reverse_document, posting_entry, reversal_entry,
}
use lcs_system.Finance.Documents.Entries.{lines_of_draft-IsBalanced, reversed_lines-IsBalanced}
use lcs_system.Finance.Documents.Inversion.{
  Posting, post_draft-Posting, post_document-cases, reverse_posted-Reversal, reverse_document-cases,
}

-- Resolving a period writes no entry, posting, document or allocation.
pub resolve_period_keeps :
    (d : Date) (b : Books)
    → let b' = (resolve_period d b).1 in
      (b'.entries ≡ b.entries)
      × (b'.postings ≡ b.postings)
      × (b'.documents ≡ b.documents)
      × (b'.allocations ≡ b.allocations)
      × (b.next_id ≤ b'.next_id)
unfolding resolve_period
resolve_period_keeps d b = ground arith

-- The books after a period is resolved are as sound as before.
pub resolve_period-IsSoundBooks :
    (d : Date) (b : Books) → IsSoundBooks b → IsSoundBooks (resolve_period d b).1
resolve_period-IsSoundBooks d b h =
    let (es, ps, _, _, le) = resolve_period_keeps d b in
    record {
      balanced = rw es h.balanced;
      linked =
          rw (es, ps)
            (All-imp _ _ b.postings (λ p l. (le_trans l.0 le, l.1, l.2, l.3, l.4)) h.linked);
    }

-- An entry is put in front, with a key that no link has passed.
pub new_entry-IsLinked :
    (e : JournalEntry) (b : Books)
    → e.id ≡ b.next_id
    → All (IsLinked b.entries b.next_id) b.postings
    → All (IsLinked (e ∷ b.entries) (b.next_id + 1)) b.postings
new_entry-IsLinked e b own h = All-imp _ _ b.postings still h
  where
    still :
        (p : FinancialDocumentPosting)
        → IsLinked b.entries b.next_id p
        → IsLinked (e ∷ b.entries) (b.next_id + 1) p
    still p l = (omega arith, l.1, ground (arith, l.0, l.2, own), l.3, l.4)

pub assert_balanced-eq :
    (d : JournalDraft) → assert_balanced d ≡ ok tt → debit_total d ≡ credit_total d
unfolding assert_balanced
assert_balanced-eq d h = ground arith

post_draft-IsSoundBooks :
    {r : Request} {d : FinancialDocument} {b b' : Books}
    → Posting r d b b'
    → IsSoundBooks b
    → IsSoundBooks b'
unfolding posting_entry
post_draft-IsSoundBooks {r} {d} {b} p h =
    let on = or_else d.posting_date d.document_date in
    let (period, b₁) = resolve_period on b in
    let number = (allocate_number (codes "JOURNAL") r.utc_year b₁.sequences).0 in
    let entry = posting_entry r d period on p.draft number b₁.next_id in
    let s = resolve_period-IsSoundBooks on b h in
    rw p.after (record {
      balanced = (
        (λ _.
            lines_of_draft-IsBalanced d _ 1 p.draft.lines (assert_balanced-eq p.draft p.balanced)),
        s.balanced,
      );
      linked = (
        (omega arith, entry, ground arith, refl, refl),
        new_entry-IsLinked entry b₁ refl s.linked,
      );
    })

-- Posting a document keeps sound books sound: every posted entry balances, in its own currency exactly
-- and in the base currency up to half of the last place for each line, and every posting leads to a
-- posted entry of its document that is in the books.
pub post_document-IsSoundBooks :
    (r : Request) (key : ℕ) (b : Books) {b' : Books}
    → IsSoundBooks b
    → post_document r key b ≡ ok b'
    → IsSoundBooks b'
post_document-IsSoundBooks r key b {b'} sound h =
    let c = post_document-cases r key b h in by_case c.0 c.2
  where
    by_case :
        (d : FinancialDocument)
        → (((d.status ≡ DocumentStatus.posted) × (b' ≡ b))
            ⊎ ((d.status ≡ DocumentStatus.draft) × (post_draft r d b ≡ ok b')))
        → IsSoundBooks b'
    by_case d (inl (_, same)) = rw same sound
    by_case d (inr (_, posted)) = post_draft-IsSoundBooks (post_draft-Posting r d b posted) sound

-- Reversing a document keeps sound books sound: every posted entry balances, in its own currency
-- exactly and in the base currency up to half of the last place for each line, and every posting leads
-- to a posted entry of its document that is in the books.
pub reverse_document-IsSoundBooks :
    (r : Request) (key : ℕ) (b : Books) {b' : Books}
    → IsSoundBooks b
    → reverse_document r key b ≡ ok b'
    → IsSoundBooks b'
unfolding reversal_entry
reverse_document-IsSoundBooks r key b {b'} sound h =
    let (d, _, _, reversed) = reverse_document-cases r key b h in
    let p = reverse_posted-Reversal r d b reversed in
    let b₁ = (resolve_period r.today b).1 in
    let s = resolve_period-IsSoundBooks r.today b sound in
    let link = All-first_row (IsLinked b.entries b.next_id) _ b.postings sound.linked p.linked in
    let same : link.1 ≡ p.original =
      some-eq (sym link.2 ∙ (rw (resolve_period_keeps r.today b).0 at p.found)) in
    let posted = subst (λ (e : JournalEntry). e.status ≡ EntryStatus.posted) same link.3 in
    rw p.after (record {
      balanced = (
        (λ _.
            reversed_lines-IsBalanced d 1 p.original.lines
              (All-first_row IsSound _ b₁.entries s.balanced p.found posted)),
        s.balanced,
      );
      linked = new_entry-IsLinked _ b₁ refl s.linked;
    })
