-- ===== src/Finance/Journals/Edits.antt =====
-- The ledger after journals are saved or deleted.
use lcs_system.Shared.{
  ℕ, ◌≡◌, false, not, List, [], ◌∷◌, Option, some, none, ok, All-imp, All-where_rows, inl, inr,
  invalid_state, raise_if-eq-ok, >>=-eq-ok, ok-injective, where_rows, ◌==◌, Option-cases, some-eq,
  subst, sym, refl, Bool-cases, eqb→eq, ◌∙◌, or_else,
}
use lcs_system.Finance.Models.{
  Date, AccountingPeriod, JournalEntry, FinancialDocumentPosting, Books, Request, EntryStatus,
}
use lcs_system.Finance.Periods.{resolve_period}
use lcs_system.Finance.Ledger.{find_entry}
use lcs_system.Finance.Ledger.Rows.{found_by_own_key, find_entry-delete, All-modify_entry}
use lcs_system.Finance.Ledger.Balanced.{IsSound, IsLinked, IsSoundBooks}
use lcs_system.Finance.Documents.Soundness.{new_entry-IsLinked, resolve_period-IsSoundBooks}
use lcs_system.Finance.Journals.{
  JournalInput, journal_lines, with_lines, redate, create_entry, update_entry, existing,
  save_journal, delete_journals, is_posted_entry,
}
use lcs_system.Finance.Journals.Soundness.{modify_entry-IsLinked}

not_posted : (s : EntryStatus) → is_posted_entry s ≡ false → s ≡ EntryStatus.posted → ⊥
not_posted EntryStatus.posted h e = cc
not_posted EntryStatus.draft h e = cc
not_posted EntryStatus.unknown h e = cc

-- Books without an entry that was not posted keep their links.
delete-IsSoundBooks :
    (key : ℕ) (b : Books) (x : JournalEntry)
    → find_entry key b.entries ≡ some x
    → is_posted_entry x.status ≡ false
    → IsSoundBooks b
    → IsSoundBooks (record b { entries = where_rows (λ x. not (x.id == key)) b.entries })
delete-IsSoundBooks key b x found draft h = record {
  balanced = All-where_rows IsSound _ b.entries h.balanced;
  linked = All-imp _ _ b.postings still h.linked;
}
  where
    still :
        (p : FinancialDocumentPosting)
        → IsLinked b.entries b.next_id p
        → IsLinked (where_rows (λ x. not (x.id == key)) b.entries) b.next_id p
    still p l =
        let (below, e, there, posted, own) = l in
        let after = find_entry-delete key p.journal_entry_id b.entries in
        elim (Bool-cases (p.journal_entry_id == key)) [
          | inr other ↦ (below, e, after ∙ rw other there, posted, own)
          | inl here ↦
              let same : e ≡ x =
                some-eq (sym there ∙ rw (eqb→eq p.journal_entry_id key here) found) in
              absurd (
                not_posted x.status draft
                  (subst (λ (z : JournalEntry). z.status ≡ EntryStatus.posted) same posted))
        ]

-- Deleting journals keeps the books sound.
pub delete_journals-IsSoundBooks :
    (keys : List ℕ) (b : Books) {b' : Books}
    → IsSoundBooks b
    → delete_journals keys b ≡ ok b'
    → IsSoundBooks b'
unfolding delete_journals
delete_journals-IsSoundBooks [] b h e = rw (ok-injective e) h
delete_journals-IsSoundBooks (key ∷ keys) b {b'} h e =
    elim (Option-cases (find_entry key b.entries)) [
      | inl missing ↦ delete_journals-IsSoundBooks keys b h (rw (missing, delete_journals) at e)
      | inr (x, found) ↦
          let (draft, e₁) =
            raise_if-eq-ok (is_posted_entry x.status) invalid_state _
              (rw (found, delete_journals) at e) in
          delete_journals-IsSoundBooks keys
            (record b { entries = where_rows (λ y. not (y.id == key)) b.entries })
            (delete-IsSoundBooks key b x found draft h) e₁
    ]

existing_by_own_key :
    (key : Option ℕ) (es : List JournalEntry) (x : JournalEntry)
    → existing key es ≡ some x
    → find_entry x.id es ≡ some x
existing_by_own_key none es x h = cc
existing_by_own_key (some key) es x h = found_by_own_key key es x h

create_entry-IsSoundBooks :
    (r : Request) (input : JournalInput) (period : AccountingPeriod) (on date : Date) (b : Books)
    {b' : Books}
    → IsSoundBooks b
    → create_entry r input period on date b ≡ ok b'
    → IsSoundBooks b'
create_entry-IsSoundBooks r input period on date b h e =
    let (rows, _, e₁) = >>=-eq-ok (journal_lines r b 0 input.lines) _ e in
    rw (ok-injective e₁) (record {
      balanced = ((λ posted. cc), h.balanced);
      linked = new_entry-IsLinked _ b refl h.linked;
    })

update_entry-IsSoundBooks :
    (r : Request) (input : JournalInput) (x : JournalEntry) (period : AccountingPeriod)
    (on date : Date) (b : Books) {b' : Books}
    → IsSoundBooks b
    → find_entry x.id b.entries ≡ some x
    → update_entry r input x period on date b ≡ ok b'
    → IsSoundBooks b'
update_entry-IsSoundBooks r input x period on date b h own e =
    let (draft, e₁) = raise_if-eq-ok (is_posted_entry x.status) invalid_state _ e in
    let (rows, _, e₂) = >>=-eq-ok (journal_lines r b 0 input.lines) _ e₁ in
    rw (ok-injective e₂) (record {
      balanced =
          All-modify_entry IsSound x.id (λ old. with_lines rows (redate period on date old))
            b.entries
            (λ y found _ posted. absurd (
              not_posted x.status draft (
                subst (λ (z : JournalEntry). z.status ≡ EntryStatus.posted)
                  (some-eq (sym found ∙ own)) posted)))
            h.balanced;
      linked =
          All-imp _ _ b.postings
            (modify_entry-IsLinked x.id _ b.entries b.next_id (λ y q. q) (λ y q. q) (λ y. refl))
            h.linked;
    })

-- Saving a journal, new or edited, keeps the books sound.
pub save_journal-IsSoundBooks :
    (r : Request) (input : JournalInput) (b : Books) {b' : Books}
    → IsSoundBooks b
    → save_journal r input b ≡ ok b'
    → IsSoundBooks b'
unfolding save_journal
save_journal-IsSoundBooks r input b {b'} h e =
    let on = or_else input.entry_date r.today in
    let date = or_else input.posting_date on in
    let p = resolve_period date b in
    elim (Option-cases (existing input.id p.1.entries)) [
      | inl missing ↦
          create_entry-IsSoundBooks r input p.0 on date p.1 (resolve_period-IsSoundBooks date b h)
            (rw (missing, save_journal) at e)
      | inr (x, found) ↦
          update_entry-IsSoundBooks r input x p.0 on date p.1 (resolve_period-IsSoundBooks date b h)
            (existing_by_own_key input.id p.1.entries x found) (rw (found, save_journal) at e)
    ]
