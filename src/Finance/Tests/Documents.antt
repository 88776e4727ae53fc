-- ===== src/Finance/Tests/Documents.antt =====
-- Runs of the calls on documents and journals.
use lcs_system.Shared.{
  ℕ, ℤ, List, ◌+ℤ◌, ◌≡◌, refl, none, some, [], ◌∷◌, map, pos, Outcome, ok, err, false, where_rows,
  not,
}
use lcs_system.Finance.Fx.{whole}
use lcs_system.Finance.Models.{
  Books, JournalEntry, EntryStatus, FinancialDocument, FinancialDocumentLine,
  FinancialDocumentPosting, DocumentStatus,
}
use lcs_system.Finance.Ledger.{find_entry, find_document, base_debits, base_credits}
use lcs_system.Finance.Documents.Mirror.{balance, base_balance, reverse_document-mirrors}
use lcs_system.Finance.Ledger.Balanced.{IsSoundBooks}
use lcs_system.Finance.Documents.{post_document, reverse_document, posting_of, touches}
use lcs_system.Finance.Documents.Soundness.{
  post_document-IsSoundBooks, reverse_document-IsSoundBooks,
}
use lcs_system.Finance.Settlement.{Settlement, allocate_payment}
use lcs_system.Finance.Settlement.Subledger.{IsSubledger}
use lcs_system.Finance.Settlement.Allocate.{allocate_payment-IsSubledger}
use lcs_system.Finance.Settlement.Post.{post_document-IsSubledger}
use lcs_system.Finance.Settlement.Release.{reverse_document-IsSubledger}
use lcs_system.Finance.Journals.{save_journal, post_journal, delete_journals}
use lcs_system.Finance.Journals.Soundness.{post_journal-IsSoundBooks}
use lcs_system.Finance.Journals.Edits.{save_journal-IsSoundBooks}
use lcs_system.Finance.Integrity.{payment_allocated, document_reversed, here, then}
use lcs_system.Finance.Integrity.Kept.{reached-IsKept}
use lcs_system.Finance.Tests.{
  books-IsSubledger, request, books, books-IsSoundBooks, settled_books, settled_books-IsSoundBooks,
  settled_books-IsSubledger, or_books, journal_input,
}

-- The invoice is posted, the receipt is allocated to it in part, and the invoice is reversed.
unfoldable posted : Books
unfolding post_document
posted = or_books (post_document request 1 books)

posts : post_document request 1 books ≡ ok posted
unfolding posted lcs_system.Finance.Periods.resolve_period lcs_system.Finance.Periods.new_period
    lcs_system.Finance.Posting.build lcs_system.Finance.PostingRules.resolve
    lcs_system.Finance.PostingRules.tier lcs_system.Finance.PostingRules.legacy_accounts
    lcs_system.Finance.PostingRules.validate_postable lcs_system.Finance.Posting.draft_lines
    lcs_system.Finance.Posting.strategy_for lcs_system.Finance.Posting.add_detailed
    lcs_system.Finance.Posting.detail_account lcs_system.Finance.Posting.assert_balanced
    lcs_system.Shared.◌+ℤ◌ lcs_system.Finance.Documents.with_base_amounts
    lcs_system.Finance.Ledger.precision_for lcs_system.Finance.Fx.convert_to_base
posts = refl

-- Two lines of a ten-thousandth each, at a rate of one half: on the one debit the base amount is a
-- ten-thousandth, on each of the two credits a half of it is rounded up.
abbrev cent_line : FinancialDocumentLine
cent_line = record {
  fee_type_id = none;
  tax_amount = pos 0;
  line_amount = pos 1;
  account_id = none;
}

abbrev at_half : FinancialDocument → FinancialDocument
at_half d = record d {
  exchange_rate = pos 50000000;
  subtotal_amount = pos 2;
  total_amount = pos 2;
  lines = cent_line ∷ cent_line ∷ [];
}

unfoldable drifting : Books
drifting = record books { documents = map at_half books.documents }

drifts :
    map {B = ℤ × ℤ}
      (λ e. (base_debits e.lines, base_credits e.lines))
      (or_books (post_document request 1 drifting)).entries
    ≡ (pos 1, pos 2) ∷ []
unfolding drifting post_document lcs_system.Finance.Periods.resolve_period
    lcs_system.Finance.Periods.new_period lcs_system.Finance.Posting.build
    lcs_system.Finance.PostingRules.resolve lcs_system.Finance.PostingRules.tier
    lcs_system.Finance.PostingRules.legacy_accounts
    lcs_system.Finance.PostingRules.validate_postable lcs_system.Finance.Posting.draft_lines
    lcs_system.Finance.Posting.strategy_for lcs_system.Finance.Posting.add_detailed
    lcs_system.Finance.Posting.detail_account lcs_system.Finance.Posting.assert_balanced
    lcs_system.Finance.Documents.with_base_amounts lcs_system.Finance.Ledger.precision_for
    lcs_system.Finance.Fx.convert_to_base lcs_system.Finance.Ledger.base_amount
    lcs_system.Finance.Ledger.sum_of lcs_system.Finance.Fx.quantize
    lcs_system.Finance.Fx.round_half_up ◌+ℤ◌ lcs_system.Shared.◌-ℤ◌ lcs_system.Shared.◌*ℤ◌
    lcs_system.Finance.Documents.lines_of_draft
drifts = refl

abbrev or_settled : Outcome (Settlement × Books) → Settlement × Books
or_settled (ok s) = s
or_settled (err _) = (
  record {
    allocated = pos 0;
    payment_base = whole 0;
    target_base = whole 0;
    exchange_difference = whole 0;
    payment_balance = pos 0;
    target_outstanding = pos 0;
    idempotent_replay = false;
  },
  books,
)

unfoldable paid : Settlement × Books
unfolding allocate_payment
paid = or_settled (allocate_payment request 2 (some 1) (pos 400000) none settled_books)

is_paid : allocate_payment request 2 (some 1) (pos 400000) none settled_books ≡ ok (paid.0, paid.1)
unfolding paid lcs_system.Shared.◌-ℤ◌ lcs_system.Finance.Settlement.paid_out
    lcs_system.Finance.Ledger.precision_for lcs_system.Finance.Fx.convert_to_base
is_paid = refl

unfoldable undone : Books
unfolding reverse_document paid
undone = or_books (reverse_document request 1 paid.1)

is_undone : reverse_document request 1 paid.1 ≡ ok undone
unfolding undone lcs_system.Shared.◌-ℤ◌ lcs_system.Finance.Settlement.paid_out
    lcs_system.Finance.Ledger.precision_for lcs_system.Finance.Fx.convert_to_base
    lcs_system.Finance.Ledger.modify_document lcs_system.Finance.Periods.resolve_period
    lcs_system.Finance.Periods.new_period
is_undone = refl

-- The receipt has paid nothing out in the end, and four thousand before.
paid_then_undone :
    (map (λ d. d.paid_amount) paid.1.documents ≡ pos 400000 ∷ pos 400000 ∷ [])
    × (map (λ d. d.paid_amount) undone.documents ≡ pos 0 ∷ pos 0 ∷ [])
unfolding undone lcs_system.Shared.◌-ℤ◌ lcs_system.Finance.Settlement.paid_out
    lcs_system.Finance.Ledger.precision_for lcs_system.Finance.Fx.convert_to_base
    lcs_system.Finance.Ledger.modify_document lcs_system.Shared.◌+ℤ◌
    lcs_system.Finance.Periods.resolve_period lcs_system.Finance.Periods.new_period
    lcs_system.Finance.Documents.release
paid_then_undone = (refl, refl)

-- A journal is saved, and posted or deleted.
unfoldable saved : Books
unfolding save_journal
saved = or_books (save_journal request journal_input books)

is_saved : save_journal request journal_input books ≡ ok saved
unfolding saved lcs_system.Finance.Periods.resolve_period
    lcs_system.Finance.PostingRules.validate_postable
is_saved = refl

unfoldable entered : Books
unfolding post_journal saved
entered = or_books (post_journal request 11 saved)

is_entered : post_journal request 11 saved ≡ ok entered
unfolding entered lcs_system.Finance.Periods.resolve_period
    lcs_system.Finance.PostingRules.validate_postable lcs_system.Finance.Ledger.sum_of
    lcs_system.Shared.◌+ℤ◌ lcs_system.Shared.◌*ℤ◌ lcs_system.Finance.Periods.new_period
    lcs_system.Finance.Ledger.base_amount lcs_system.Finance.Fx.quantize
    lcs_system.Finance.Fx.round_half_up
is_entered = refl

unfoldable dropped : Books
unfolding delete_journals saved
dropped = or_books (delete_journals (11 ∷ []) saved)

is_dropped : delete_journals (11 ∷ []) saved ≡ ok dropped
unfolding dropped lcs_system.Finance.Periods.resolve_period
    lcs_system.Finance.PostingRules.validate_postable
is_dropped = refl

saved-IsSoundBooks : IsSoundBooks saved
saved-IsSoundBooks =
    save_journal-IsSoundBooks request journal_input books books-IsSoundBooks is_saved

paid-IsSubledger : IsSubledger paid.1
paid-IsSubledger =
    allocate_payment-IsSubledger request 2 (some 1) (pos 400000) none settled_books
      settled_books-IsSubledger is_paid

post_document-IsSoundBooks_example : IsSoundBooks posted
post_document-IsSoundBooks_example =
    post_document-IsSoundBooks request 1 books books-IsSoundBooks posts

reverse_document-IsSoundBooks_example : IsSoundBooks undone
reverse_document-IsSoundBooks_example =
    reverse_document-IsSoundBooks request 1 paid.1
      (reached-IsKept (then (payment_allocated request 2 (some 1) (pos 400000) none is_paid) here)
        settled_books-IsSoundBooks settled_books-IsSubledger).0
      is_undone

allocate_payment-IsSubledger_example : IsSubledger paid.1
allocate_payment-IsSubledger_example =
    allocate_payment-IsSubledger request 2 (some 1) (pos 400000) none settled_books
      settled_books-IsSubledger is_paid

reverse_document-IsSubledger_example :
    IsSubledger undone
    × (undone.allocations ≡ where_rows (λ a. not (touches 1 a)) paid.1.allocations)
    × (d : FinancialDocument) × (find_document 1 undone.documents ≡ some d)
    × (d.status ≡ DocumentStatus.reversed)
    × (d.paid_amount ≡ pos 0)
reverse_document-IsSubledger_example =
    reverse_document-IsSubledger request 1 paid.1 paid-IsSubledger is_undone

post_journal-IsSoundBooks_example : IsSoundBooks entered
post_journal-IsSoundBooks_example =
    post_journal-IsSoundBooks request 11 saved saved-IsSoundBooks is_entered

reached-IsKept_example : IsSoundBooks undone × IsSubledger undone
reached-IsKept_example =
    reached-IsKept
      (then (payment_allocated request 2 (some 1) (pos 400000) none is_paid)
        (then (document_reversed request 1 is_undone) here))
      settled_books-IsSoundBooks settled_books-IsSubledger

-- The invoice's entry is undone on every account.
reverse_document-mirrors_example :
    (posting : FinancialDocumentPosting) × (e original : JournalEntry) × (posting_of 1
        paid.1.postings
      ≡ some posting)
    × (find_entry posting.journal_entry_id paid.1.entries ≡ some original)
    × (undone.entries ≡ e ∷ paid.1.entries)
    × (e.status ≡ EntryStatus.posted)
    × (e.reversal_of_journal_entry_id ≡ some posting.journal_entry_id)
    × ((account : ℕ)
        → (balance account e.lines +ℤ balance account original.lines ≡ pos 0)
          × (base_balance account e.lines +ℤ base_balance account original.lines ≡ pos 0))
reverse_document-mirrors_example = reverse_document-mirrors request 1 paid.1 is_undone

post_document-IsSubledger_example : IsSubledger posted
post_document-IsSubledger_example =
    post_document-IsSubledger request 1 books books-IsSubledger posts
