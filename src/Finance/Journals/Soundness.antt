-- ===== src/Finance/Journals/Soundness.antt =====
-- The ledger after a journal is posted.
use lcs_system.Shared.{
  ℕ, ◌≡◌, refl, false, not, ◌||◌, List, some, ok, err, All-imp, ◌⊎◌, inl, inr, arith, eqb_ℤ, pos,
  conflict, journal_unbalanced, period_closed, validation_failed, not_found, invalid_state,
  raise_if-eq-ok, or_raise-eq-ok, >>=-eq-ok, ok-injective, ltb, length, some-eq, subst, sym, ◌∙◌,
  ◌==◌, Bool-cases,
}
use lcs_system.Finance.Models.{JournalEntry, FinancialDocumentPosting, Books, Request, EntryStatus}
use lcs_system.Finance.Ledger.{find_entry, modify_entry, debits, credits, base_debits, base_credits}
use lcs_system.Finance.Ledger.Rows.{found_by_own_key, find_entry-modify, All-modify_entry}
use lcs_system.Finance.Ledger.Balanced.{IsBalanced, IsWithin-refl, IsSound, IsLinked, IsSoundBooks}
use lcs_system.Finance.Journals.{
  check_lines, in_closed_period, entry_posted, post_entry, post_journal,
}

-- A journal that was posted balances in its own currency and in the base currency, has an amount,
-- at least two lines, and a period that is not closed.
pub record Postable (e : JournalEntry) (b : Books) : Type 0 where
  pub two_lines : ltb (length e.lines) 2 ≡ false
  pub balanced : IsBalanced e.lines
  pub nonzero : eqb_ℤ (debits e.lines) (pos 0) ≡ false
  pub open_period : in_closed_period e.accounting_period_id b.periods ≡ false

unbalanced_false :
    (e : JournalEntry)
    → (not (eqb_ℤ (debits e.lines) (credits e.lines)) || eqb_ℤ (debits e.lines) (pos 0)) ≡ false
    → (debits e.lines ≡ credits e.lines) × (eqb_ℤ (debits e.lines) (pos 0) ≡ false)
unbalanced_false e h = ground arith

base_unbalanced_false :
    (e : JournalEntry)
    → not (eqb_ℤ (base_debits e.lines) (base_credits e.lines)) ≡ false
    → base_debits e.lines ≡ base_credits e.lines
base_unbalanced_false e h = ground arith

pub post_entry-Postable :
    (r : Request) (e : JournalEntry) (b : Books) {b' : Books}
    → post_entry r e b ≡ ok b'
    → Postable e b × (b' ≡ record b { entries = modify_entry e.id (entry_posted r) b.entries })
unfolding post_entry
post_entry-Postable r e b h =
    let (two_lines, h₁) = raise_if-eq-ok (ltb (length e.lines) 2) validation_failed _ h in
    let (_, _, h₂) = >>=-eq-ok (check_lines e.lines) _ h₁ in
    let (own, h₃) =
      raise_if-eq-ok
        (not (eqb_ℤ (debits e.lines) (credits e.lines)) || eqb_ℤ (debits e.lines) (pos 0))
        (conflict journal_unbalanced) _ h₂ in
    let (base, h₄) =
      raise_if-eq-ok (not (eqb_ℤ (base_debits e.lines) (base_credits e.lines)))
        (conflict journal_unbalanced) _ h₃ in
    let (open_period, h₅) =
      raise_if-eq-ok (in_closed_period e.accounting_period_id b.periods) (conflict period_closed) _
        h₄ in
    let (equal, nonzero) = unbalanced_false e own in
    (
      record {
        two_lines = two_lines;
        balanced = record {
          own = equal;
          base = IsWithin-refl _ _ _ (base_unbalanced_false e base);
        };
        nonzero = nonzero;
        open_period = open_period;
      },
      ok-injective h₅,
    )

pub post_journal-cases :
    (r : Request) (key : ℕ) (b : Books) {b' : Books}
    → post_journal r key b ≡ ok b'
    → (e : JournalEntry) × (find_entry key b.entries ≡ some e)
      × (((e.status ≡ EntryStatus.posted) × (b' ≡ b))
          ⊎ ((e.status ≡ EntryStatus.draft) × (post_entry r e b ≡ ok b')))
unfolding post_journal
post_journal-cases r key b {b'} h =
    let (e, found, h₁) = or_raise-eq-ok (find_entry key b.entries) not_found _ h in
    (e, found, by_status e e.status h₁)
  where
    by_status :
        (e : JournalEntry) (s : EntryStatus)
        → (elim s [
          | EntryStatus.posted ↦ ok b
          | EntryStatus.draft ↦ post_entry r e b
          | EntryStatus.unknown ↦ err invalid_state
        ])
          ≡ ok b'
        → ((s ≡ EntryStatus.posted) × (b' ≡ b))
          ⊎ ((s ≡ EntryStatus.draft) × (post_entry r e b ≡ ok b'))
    by_status e EntryStatus.posted h' = inl (refl, ok-injective h')
    by_status e EntryStatus.draft h' = inr (refl, h')
    by_status e EntryStatus.unknown h' = cc

-- A link survives a change of the found row that keeps its key and its document and keeps it posted.
pub modify_entry-IsLinked :
    (key : ℕ) (f : JournalEntry → JournalEntry) (es : List JournalEntry) (next : ℕ)
    → ((e : JournalEntry) → e.id ≡ key → (f e).id ≡ key)
    → ((e : JournalEntry) → e.status ≡ EntryStatus.posted → (f e).status ≡ EntryStatus.posted)
    → ((e : JournalEntry) → (f e).source_document_id ≡ e.source_document_id)
    → (p : FinancialDocumentPosting) → IsLinked es next p
    → IsLinked (modify_entry key f es) next p
modify_entry-IsLinked key f es next keeps stays same p l =
    let (below, e, found, posted, own) = l in
    let after = find_entry-modify key f keeps p.journal_entry_id es in
    elim (Bool-cases (p.journal_entry_id == key)) [
      | inl here ↦ (below, f e, after ∙ rw (here, found) refl, stays e posted, same e ∙ own)
      | inr other ↦ (below, e, after ∙ rw other found, posted, own)
    ]

-- Posting a journal keeps sound books sound: every posted entry balances, in its own currency exactly
-- and in the base currency up to half of the last place for each line, and every posting leads to a
-- posted entry of its document that is in the books.
pub post_journal-IsSoundBooks :
    (r : Request) (key : ℕ) (b : Books) {b' : Books}
    → IsSoundBooks b
    → post_journal r key b ≡ ok b'
    → IsSoundBooks b'
post_journal-IsSoundBooks r key b {b'} sound h =
    let (e, found, c) = post_journal-cases r key b h in by_case e found c
  where
    change :
        (e : JournalEntry)
        → find_entry key b.entries ≡ some e
        → Postable e b
        → b' ≡ record b { entries = modify_entry e.id (entry_posted r) b.entries }
        → IsSoundBooks b'
    change e found p after =
        let still = λ (x : JournalEntry) (q : some e ≡ some x).
          subst (λ (z : JournalEntry). IsBalanced z.lines) (some-eq q) p.balanced in
        rw after (record {
          balanced =
              All-modify_entry IsSound e.id (entry_posted r) b.entries
                (λ x found' _ _. still x (sym (found_by_own_key key b.entries e found) ∙ found'))
                sound.balanced;
          linked =
              All-imp _ _ b.postings
                (modify_entry-IsLinked e.id (entry_posted r) b.entries b.next_id (λ x q. q)
                  (λ x q. refl) (λ x. refl))
                sound.linked;
        })

    by_case :
        (e : JournalEntry)
        → find_entry key b.entries ≡ some e
        → ((e.status ≡ EntryStatus.posted) × (b' ≡ b))
          ⊎ ((e.status ≡ EntryStatus.draft) × (post_entry r e b ≡ ok b'))
        → IsSoundBooks b'
    by_case e found (inl (_, same)) = rw same sound
    by_case e found (inr (_, posted)) =
        let (p, after) = post_entry-Postable r e b posted in change e found p after
