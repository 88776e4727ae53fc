-- ===== src/Finance/Integrity/Kept.antt =====
-- The ledger and the subledger after a sequence of calls.
use lcs_system.Shared.{
  ℕ, ℤ, ◌≡◌, refl, ◌∙◌, Option, List, [], ◌∷◌, Text, ok, inl, inr, ◌⊎◌, or_raise-eq-ok, >>=-eq-ok,
  raise_if-eq-ok, ok-injective, not_found, invalid_state, Option-cases, or_else, where_rows, not,
  ◌==◌,
}
use lcs_system.Finance.Models.{
  Date, Books, Request, PeriodStatus, AccountingPeriod, JournalEntry, EntryStatus,
}
use lcs_system.Finance.Periods.{
  resolve_period, close_period, reopen_period, update_period, find_period,
}
use lcs_system.Finance.Ledger.{find_entry}
use lcs_system.Finance.Ledger.Balanced.{IsSoundBooks}
use lcs_system.Finance.Documents.Soundness.{
  post_document-IsSoundBooks, reverse_document-IsSoundBooks, resolve_period_keeps,
}
use lcs_system.Finance.Settlement.Subledger.{IsSubledger}
use lcs_system.Finance.Settlement.Post.{post_document-IsSubledger}
use lcs_system.Finance.Settlement.Release.{reverse_document-IsSubledger}
use lcs_system.Finance.Settlement.Allocate.{
  allocate_payment-IsSubledger, allocate_payment-cases, settle-Settles,
}
use lcs_system.Finance.Settlement.{Settlement, allocate_payment, record_allocation}
use lcs_system.Finance.Journals.{
  JournalInput, save_journal, post_journal, delete_journals, create_entry, update_entry, existing,
  journal_lines, is_posted_entry, post_entry,
}
use lcs_system.Finance.Journals.Soundness.{
  post_journal-IsSoundBooks, post_journal-cases, post_entry-Postable,
}
use lcs_system.Finance.Journals.Edits.{save_journal-IsSoundBooks, delete_journals-IsSoundBooks}
use lcs_system.Finance.Integrity.{
  ◌⟶◌, document_posted, document_reversed, payment_allocated, journal_saved, journal_posted,
  journals_deleted, period_closed, period_reopened, period_updated, ◌⟶*◌, here, then,
}

-- Two books with the same documents and allocations.
abbrev SameSubledger : Books → Books → Type 0
SameSubledger b b' = (b'.documents ≡ b.documents) × (b'.allocations ≡ b.allocations)

SameSubledger-IsSubledger : {b b' : Books} → SameSubledger b b' → IsSubledger b → IsSubledger b'
SameSubledger-IsSubledger {b} {b'} (docs, rows) h = record {
  amounts = rw rows h.amounts;
  documents = λ j d found. rw rows (h.documents j d (rw docs at found));
}

-- Two books with the same entries, postings and keys.
abbrev SameLedger : Books → Books → Type 0
SameLedger b b' = (b'.entries ≡ b.entries) × (b'.postings ≡ b.postings) × (b'.next_id ≡ b.next_id)

SameLedger-IsSoundBooks : {b b' : Books} → SameLedger b b' → IsSoundBooks b → IsSoundBooks b'
SameLedger-IsSoundBooks {b} {b'} (es, ps, n) h = record {
  balanced = rw es h.balanced;
  linked = rw (es, ps, n) h.linked;
}

abbrev OnlyPeriods : Books → Books → Type 0
OnlyPeriods b b' = (ps : List AccountingPeriod) × (b' ≡ record b { periods = ps })

close_period-OnlyPeriods :
    (r : Request) (key : ℕ) (b : Books) {b' : Books}
    → close_period r key b ≡ ok b'
    → OnlyPeriods b b'
unfolding close_period
close_period-OnlyPeriods r key b e =
    let (_, _, e₁) = or_raise-eq-ok (find_period key b.periods) not_found _ e in
    (_, ok-injective e₁)

reopen_period-OnlyPeriods :
    (key : ℕ) (b : Books) {b' : Books} → reopen_period key b ≡ ok b' → OnlyPeriods b b'
unfolding reopen_period
reopen_period-OnlyPeriods key b e =
    let (_, _, e₁) = or_raise-eq-ok (find_period key b.periods) not_found _ e in
    (_, ok-injective e₁)

update_period-OnlyPeriods :
    (key : ℕ) (s : Option PeriodStatus) (b : Books) {b' : Books}
    → update_period key s b ≡ ok b'
    → OnlyPeriods b b'
unfolding update_period
update_period-OnlyPeriods key s b e =
    let (_, _, e₁) = or_raise-eq-ok (find_period key b.periods) not_found _ e in
    (_, ok-injective e₁)

post_journal-SameSubledger :
    (r : Request) (key : ℕ) (b : Books) {b' : Books}
    → post_journal r key b ≡ ok b'
    → SameSubledger b b'
post_journal-SameSubledger r key b {b'} h =
    let (e, _, c) = post_journal-cases r key b h in by_case e c
  where
    by_case :
        (e : JournalEntry)
        → ((e.status ≡ EntryStatus.posted) × (b' ≡ b))
          ⊎ ((e.status ≡ EntryStatus.draft) × (post_entry r e b ≡ ok b'))
        → SameSubledger b b'
    by_case e (inl (_, same)) = rw same (refl, refl)
    by_case e (inr (_, posted)) = rw (post_entry-Postable r e b posted).1 (refl, refl)

delete_journals-SameSubledger :
    (keys : List ℕ) (b : Books) {b' : Books} → delete_journals keys b ≡ ok b' → SameSubledger b b'
unfolding delete_journals
delete_journals-SameSubledger [] b h = rw (ok-injective h) (refl, refl)
delete_journals-SameSubledger (key ∷ keys) b {b'} e =
    elim (Option-cases (find_entry key b.entries)) [
      | inl missing ↦ delete_journals-SameSubledger keys b (rw (missing, delete_journals) at e)
      | inr (x, found) ↦
          delete_journals-SameSubledger keys
            (record b { entries = where_rows (λ y. not (y.id == key)) b.entries })
            (raise_if-eq-ok (is_posted_entry x.status) invalid_state _
              (rw (found, delete_journals) at e)).1
    ]

create_entry-SameSubledger :
    (r : Request) (input : JournalInput) (period : AccountingPeriod) (on date : Date) (b : Books)
    {b' : Books}
    → create_entry r input period on date b ≡ ok b'
    → SameSubledger b b'
create_entry-SameSubledger r input period on date b e =
    let (rows, _, e₁) = >>=-eq-ok (journal_lines r b 0 input.lines) _ e in
    rw (ok-injective e₁) (refl, refl)

update_entry-SameSubledger :
    (r : Request) (input : JournalInput) (x : JournalEntry) (period : AccountingPeriod)
    (on date : Date) (b : Books) {b' : Books}
    → update_entry r input x period on date b ≡ ok b'
    → SameSubledger b b'
update_entry-SameSubledger r input x period on date b e =
    let (_, e₁) = raise_if-eq-ok (is_posted_entry x.status) invalid_state _ e in
    let (rows, _, e₂) = >>=-eq-ok (journal_lines r b 0 input.lines) _ e₁ in
    rw (ok-injective e₂) (refl, refl)

save_journal-SameSubledger :
    (r : Request) (input : JournalInput) (b : Books) {b' : Books}
    → save_journal r input b ≡ ok b'
    → SameSubledger b b'
unfolding save_journal
save_journal-SameSubledger r input b {b'} e =
    let on = or_else input.entry_date r.today in
    let date = or_else input.posting_date on in
    let p = resolve_period date b in
    let (_, _, docs, rows, _) = resolve_period_keeps date b in
    elim (Option-cases (existing input.id p.1.entries)) [
      | inl missing ↦
          let (ds, also) =
            create_entry-SameSubledger r input p.0 on date p.1 (rw (missing, save_journal) at e) in
          (ds ∙ docs, also ∙ rows)
      | inr (x, found) ↦
          let (ds, also) =
            update_entry-SameSubledger r input x p.0 on date p.1 (rw (found, save_journal) at e) in
          (ds ∙ docs, also ∙ rows)
    ]

allocate_payment-SameLedger :
    (r : Request) (payment : ℕ) (target : Option ℕ) (amount : ℤ) (key : Option Text) (b : Books)
    {s : Settlement} {b' : Books}
    → allocate_payment r payment target amount key b ≡ ok (s, b')
    → SameLedger b b'
unfolding record_allocation
allocate_payment-SameLedger r payment target amount key b {s} {b'} e =
    elim (allocate_payment-cases r payment target amount key b e) [
      | inl same ↦ rw same (refl, refl, refl)
      | inr c ↦
          let (p, t, _, _, _, settled_now) = c in
          rw (settle-Settles r p t amount key b settled_now).after (refl, refl, refl)
    ]

-- One call keeps the books sound.
step-IsSoundBooks : {b b' : Books} → b ⟶ b' → IsSoundBooks b → IsSoundBooks b'
step-IsSoundBooks {b} (document_posted r key e) h = post_document-IsSoundBooks r key b h e
step-IsSoundBooks {b} (document_reversed r key e) h = reverse_document-IsSoundBooks r key b h e
step-IsSoundBooks {b} (payment_allocated r p t amount key e) h =
    SameLedger-IsSoundBooks (allocate_payment-SameLedger r p t amount key b e) h
step-IsSoundBooks {b} (journal_saved r input e) h = save_journal-IsSoundBooks r input b h e
step-IsSoundBooks {b} (journal_posted r key e) h = post_journal-IsSoundBooks r key b h e
step-IsSoundBooks {b} (journals_deleted keys e) h = delete_journals-IsSoundBooks keys b h e
step-IsSoundBooks {b} (period_closed r key e) h =
    rw (close_period-OnlyPeriods r key b e).1 (record { balanced = h.balanced; linked = h.linked })
step-IsSoundBooks {b} (period_reopened key e) h =
    rw (reopen_period-OnlyPeriods key b e).1 (record { balanced = h.balanced; linked = h.linked })
step-IsSoundBooks {b} (period_updated key s e) h =
    rw (update_period-OnlyPeriods key s b e).1 (record { balanced = h.balanced; linked = h.linked })

-- One call keeps the subledger reconciled.
step-IsSubledger : {b b' : Books} → b ⟶ b' → IsSubledger b → IsSubledger b'
step-IsSubledger {b} (document_posted r key e) h = post_document-IsSubledger r key b h e
step-IsSubledger {b} (document_reversed r key e) h = (reverse_document-IsSubledger r key b h e).0
step-IsSubledger {b} (payment_allocated r p t amount key e) h =
    allocate_payment-IsSubledger r p t amount key b h e
step-IsSubledger {b} (journal_saved r input e) h =
    SameSubledger-IsSubledger (save_journal-SameSubledger r input b e) h
step-IsSubledger {b} (journal_posted r key e) h =
    SameSubledger-IsSubledger (post_journal-SameSubledger r key b e) h
step-IsSubledger {b} (journals_deleted keys e) h =
    SameSubledger-IsSubledger (delete_journals-SameSubledger keys b e) h
step-IsSubledger {b} (period_closed r key e) h =
    rw (close_period-OnlyPeriods r key b e).1
      (record { amounts = h.amounts; documents = h.documents })
step-IsSubledger {b} (period_reopened key e) h =
    rw (reopen_period-OnlyPeriods key b e).1
      (record { amounts = h.amounts; documents = h.documents })
step-IsSubledger {b} (period_updated key s e) h =
    rw (update_period-OnlyPeriods key s b e).1
      (record { amounts = h.amounts; documents = h.documents })

-- After any sequence of calls, from sound and reconciled books, every posted entry balances in its
-- own currency, and in the base currency up to half of the last place for each line; every posting
-- leads to a posted entry of its document that is in the books, and every document has been paid the
-- sum of its allocations and, where its total is not negative, no more than its total.
pub reached-IsKept :
    {b b' : Books} → b ⟶* b' → IsSoundBooks b → IsSubledger b → IsSoundBooks b' × IsSubledger b'
reached-IsKept here h k = (h, k)
reached-IsKept (then s rest) h k =
    reached-IsKept rest (step-IsSoundBooks s h) (step-IsSubledger s k)
