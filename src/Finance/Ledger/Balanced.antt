-- ===== src/Finance/Ledger/Balanced.antt =====
-- Balanced sets of journal lines.
use lcs_system.Shared.{
  ◌≡◌, List, ℤ, ◌+ℤ◌, ◌*ℤ◌, pos_part, neg_part, +ℤ_parts, eq_of_parts, arith, ap, ◌+◌, ◌*◌, ℕ, ◌<◌,
  length, ◌≤ℤ◌, ◌≤◌, All, some, refl, sym, pos,
}
use lcs_system.Finance.Models.{
  JournalEntryLine, JournalEntry, EntryStatus, Books, FinancialDocumentPosting,
}
use lcs_system.Finance.Fx.{quantize, round_half_up}
use lcs_system.Finance.Fx.Rounding.{round_half_up_nearest}
use lcs_system.Finance.Ledger.{find_entry, debits, credits, base_debits, base_credits, base_amount}

-- Two amounts that differ by at most half of the last place for each of a number of lines.
abbrev pub IsWithin : ℕ → ℤ → ℤ → Type 0
IsWithin n a b = (a +ℤ a ≤ℤ b +ℤ b +ℤ pos n) × (b +ℤ b ≤ℤ a +ℤ a +ℤ pos n)

pub IsWithin-refl : (n : ℕ) (a b : ℤ) → a ≡ b → IsWithin n a b
IsWithin-refl n a b h =
    let le : a +ℤ a ≤ℤ a +ℤ a +ℤ pos n = omega (arith, +ℤ_parts (a +ℤ a) (pos n)) in
    rw (sym h) (le, le)

-- Debits equal credits in the lines' own currency, and in the base currency up to the rounding of
-- each line.
pub record IsBalanced (ls : List JournalEntryLine) : Type 0 where
  pub own : debits ls ≡ credits ls
  pub base : IsWithin (length ls) (base_debits ls) (base_credits ls)

-- A posted entry balances.
abbrev pub IsSound : JournalEntry → Type 0
IsSound e = e.status ≡ EntryStatus.posted → IsBalanced e.lines

pub *ℤ_parts :
    (a b : ℤ)
    → pos_part (a *ℤ b) + pos_part a * neg_part b + neg_part a * pos_part b
      ≡ neg_part (a *ℤ b) + pos_part a * pos_part b + neg_part a * neg_part b
unfolding ◌*ℤ◌
*ℤ_parts a b = ground arith

pub *ℤ_distrib : (a b r : ℤ) → (a +ℤ b) *ℤ r ≡ a *ℤ r +ℤ b *ℤ r
*ℤ_distrib a b r =
    let e = +ℤ_parts a b in
    eq_of_parts _ _ (
      omega (
        arith,
        *ℤ_parts (a +ℤ b) r,
        *ℤ_parts a r,
        *ℤ_parts b r,
        +ℤ_parts (a *ℤ r) (b *ℤ r),
        ap (λ (t : ℕ). t * pos_part r) e,
        ap (λ (t : ℕ). t * neg_part r) e,
      ))

pub zero_*ℤ : (r : ℤ) → pos 0 *ℤ r ≡ pos 0
zero_*ℤ r = eq_of_parts _ _ (omega (arith, *ℤ_parts (pos 0) r))

-- A posting leads to an entry that is there, that is posted, and that is of the posting's document.
abbrev pub IsLinked : List JournalEntry → ℕ → FinancialDocumentPosting → Type 0
IsLinked entries next p =
    (p.journal_entry_id < next)
    × (e : JournalEntry) × (find_entry p.journal_entry_id entries ≡ some e)
    × (e.status ≡ EntryStatus.posted)
    × (e.source_document_id ≡ some p.financial_document_id)

-- What a base column keeps of an amount at a rate is within half of its last place.
pub base_amount_bounds :
    (a rate : ℤ)
    → let q = base_amount a rate in
      let p = a *ℤ rate in
      (200000000 * pos_part q + 2 * neg_part p
        ≤ 2 * pos_part p + 200000000 * neg_part q + 100000000)
      × (2 * pos_part p + 200000000 * neg_part q
          ≤ 200000000 * pos_part q + 2 * neg_part p + 100000000)
unfolding base_amount quantize
base_amount_bounds a rate =
    let p = a *ℤ rate in
    let q = round_half_up 100000000 p in
    let (low, high) = round_half_up_nearest 100000000 p (omega arith) in
    let u = pos 200000000 *ℤ q in
    let w = pos 2 *ℤ p in
    let facts = *ℤ_parts (pos 200000000) q in
    let facts' = *ℤ_parts (pos 2) p in
    let more = +ℤ_parts w (pos 100000000) in
    let more' = +ℤ_parts u (pos 100000000) in (omega arith, omega arith)

pub base_amount_zero : (rate : ℤ) → base_amount (pos 0) rate ≡ pos 0
unfolding base_amount quantize round_half_up
base_amount_zero rate = rw (zero_*ℤ rate) refl

-- The books: every posted entry balances, up to rounding in the base currency, and every posting
-- leads to a posted entry of its document.
pub record IsSoundBooks (b : Books) : Type 0 where
  pub balanced : All IsSound b.entries
  pub linked : All (IsLinked b.entries b.next_id) b.postings
