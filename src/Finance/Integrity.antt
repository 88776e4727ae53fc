-- ===== src/Finance/Integrity.antt =====
-- The calls of backend/app/modules/finance/service.py that change the books, one after the other in
-- any order: a step is one call that goes through, and a call that refuses changes nothing.
pub mod Kept
use lcs_system.Shared.{ℕ, ℤ, ◌≡◌, Option, List, Text, ok}
use lcs_system.Finance.Models.{Books, Request, PeriodStatus}
use lcs_system.Finance.Periods.{close_period, reopen_period, update_period}
use lcs_system.Finance.Documents.{post_document, reverse_document}
use lcs_system.Finance.Settlement.{Settlement, allocate_payment}
use lcs_system.Finance.Journals.{JournalInput, save_journal, post_journal, delete_journals}

infix 5 ◌⟶◌ ◌⟶*◌
pub data ◌⟶◌ : Books → Books → Type 0 where
  document_posted : {b b' : Books} (r : Request) (key : ℕ) → post_document r key b ≡ ok b' → b ⟶ b'
  document_reversed :
      {b b' : Books} (r : Request) (key : ℕ) → reverse_document r key b ≡ ok b' → b ⟶ b'
  payment_allocated :
      {b b' : Books} (r : Request) (payment : ℕ) (target : Option ℕ) (amount : ℤ)
      (key : Option Text) {s : Settlement}
      → allocate_payment r payment target amount key b ≡ ok (s, b')
      → b ⟶ b'
  journal_saved :
      {b b' : Books} (r : Request) (input : JournalInput) → save_journal r input b ≡ ok b' → b ⟶ b'
  journal_posted : {b b' : Books} (r : Request) (key : ℕ) → post_journal r key b ≡ ok b' → b ⟶ b'
  journals_deleted : {b b' : Books} (keys : List ℕ) → delete_journals keys b ≡ ok b' → b ⟶ b'
  period_closed : {b b' : Books} (r : Request) (key : ℕ) → close_period r key b ≡ ok b' → b ⟶ b'
  period_reopened : {b b' : Books} (key : ℕ) → reopen_period key b ≡ ok b' → b ⟶ b'
  period_updated :
      {b b' : Books} (key : ℕ) (status : Option PeriodStatus)
      → update_period key status b ≡ ok b'
      → b ⟶ b'

pub data ◌⟶*◌ : Books → Books → Type 0 where
  here : {b : Books} → b ⟶* b
  then : {a b c : Books} → a ⟶ b → b ⟶* c → a ⟶* c
