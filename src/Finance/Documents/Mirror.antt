-- ===== src/Finance/Documents/Mirror.antt =====
-- The balance that an entry and its reversal leave on an account.
use lcs_system.Shared.{
  ℕ, ◌+◌, ◌==◌, ◌≡◌, refl, sym, ◌∙◌, ap, if◌then◌else◌, List, [], ◌∷◌, ℤ, pos, ◌+ℤ◌, ◌-ℤ◌, int_laws,
  some, ok, codes, eqb→eq, first_row-passes,
}
use lcs_system.Finance.Models.{
  FinancialDocument, FinancialDocumentPosting, JournalEntry, JournalEntryLine, EntryStatus, Books,
  Request,
}
use lcs_system.Finance.Periods.{resolve_period}
use lcs_system.Finance.Sequences.{allocate_number}
use lcs_system.Finance.Ledger.{find_entry, sum_of}
use lcs_system.Finance.Ledger.Rows.{document_key}
use lcs_system.Finance.Documents.{posting_of, reversed_lines, reversal_entry, reverse_document}
use lcs_system.Finance.Documents.Inversion.{reverse_document-cases, reverse_posted-Reversal}
use lcs_system.Finance.Documents.Soundness.{resolve_period_keeps}

-- The lines' balance on an account, debits less credits, in the lines' own currency and in the base
-- currency.
abbrev own_on : ℕ → JournalEntryLine → ℤ
own_on account l = if l.account_id == account then l.debit_amount -ℤ l.credit_amount else pos 0

abbrev base_on : ℕ → JournalEntryLine → ℤ
base_on account l =
    if l.account_id == account then l.base_debit_amount -ℤ l.base_credit_amount else pos 0

unfoldable pub balance : ℕ → List JournalEntryLine → ℤ
balance account = sum_of (own_on account)

unfoldable pub base_balance : ℕ → List JournalEntryLine → ℤ
base_balance account = sum_of (base_on account)

balance-reversed_lines :
    (account : ℕ) (d : FinancialDocument) (n : ℕ) (ls : List JournalEntryLine)
    → balance account (reversed_lines d n ls) +ℤ balance account ls ≡ pos 0
unfolding balance reversed_lines sum_of
balance-reversed_lines account d n [] = grind int_laws
balance-reversed_lines account d n (l ∷ ls) =
    grind (int_laws, balance-reversed_lines account d (n + 1) ls)

base_balance-reversed_lines :
    (account : ℕ) (d : FinancialDocument) (n : ℕ) (ls : List JournalEntryLine)
    → base_balance account (reversed_lines d n ls) +ℤ base_balance account ls ≡ pos 0
unfolding base_balance reversed_lines sum_of
base_balance-reversed_lines account d n [] = grind int_laws
base_balance-reversed_lines account d n (l ∷ ls) =
    grind (int_laws, base_balance-reversed_lines account d (n + 1) ls)

-- A reversal puts one posted entry in front of the entries, which names the entry that the posting of
-- the reversed document leads to, and on every account the two add up to nothing, in both currencies.
pub reverse_document-mirrors :
    (r : Request) (key : ℕ) (b : Books) {b' : Books}
    → reverse_document r key b ≡ ok b'
    → (posting : FinancialDocumentPosting) × (e original : JournalEntry) × (posting_of key
          b.postings
        ≡ some posting)
      × (find_entry posting.journal_entry_id b.entries ≡ some original)
      × (b'.entries ≡ e ∷ b.entries)
      × (e.status ≡ EntryStatus.posted)
      × (e.reversal_of_journal_entry_id ≡ some posting.journal_entry_id)
      × ((account : ℕ)
          → (balance account e.lines +ℤ balance account original.lines ≡ pos 0)
            × (base_balance account e.lines +ℤ base_balance account original.lines ≡ pos 0))
unfolding reversal_entry
reverse_document-mirrors r key b h =
    let (d, there, _, reversed) = reverse_document-cases r key b h in
    let p = reverse_posted-Reversal r d b reversed in
    let (es, _, _, _, _) = resolve_period_keeps r.today b in
    let found : find_entry p.posting.journal_entry_id b.entries ≡ some p.original =
      rw es at p.found in
    let own : p.original.id ≡ p.posting.journal_entry_id =
      eqb→eq p.original.id p.posting.journal_entry_id
        (first_row-passes (λ x. x.id == p.posting.journal_entry_id) b.entries p.original found) in
    let b₁ = (resolve_period r.today b).1 in
    let number = (allocate_number (codes "JOURNAL") r.utc_year b₁.sequences).0 in
    let e = reversal_entry r d p.original (resolve_period r.today b).0 number b₁.next_id in
    (
      p.posting,
      e,
      p.original,
      ap (λ j. posting_of j b.postings) (sym (document_key key b.documents d there)) ∙ p.linked,
      found,
      ap (λ (x : Books). x.entries) p.after ∙ ap (λ (xs : List JournalEntry). e ∷ xs) es,
      refl,
      ap some own,
      λ account. (
        balance-reversed_lines account d 1 p.original.lines,
        base_balance-reversed_lines account d 1 p.original.lines,
      ),
    )
