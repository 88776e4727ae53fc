-- ===== src/Finance/Documents/Entries.antt =====
-- The lines that a posting and a reversal write.
use lcs_system.Shared.{
  ℕ, suc, ◌≡◌, refl, List, [], ◌∷◌, true, false, ℤ, pos, ◌*ℤ◌, ◌+ℤ◌, +ℤ_parts, pos_part, neg_part,
  ◌+◌, ◌*◌, ◌≤◌, length, arith, sym, ◌∙◌, inl, inr, Bool-cases,
}
use lcs_system.Finance.Models.{FinancialDocument, JournalEntryLine}
use lcs_system.Finance.Posting.{DraftLine, side_sum}
use lcs_system.Finance.Ledger.{sum_of, debits, credits, base_debits, base_credits, base_amount}
use lcs_system.Finance.Ledger.Balanced.{
  IsBalanced, IsWithin, *ℤ_distrib, zero_*ℤ, base_amount_bounds,
}
use lcs_system.Finance.Documents.{lines_of_draft, reversed_lines}

-- Twice the difference of `bd` and `bc`, a count of 10^-4, and of `sd` and `sc`, one of 10^-12, are
-- `n` last places apart at most.
record IsClose (n : ℕ) (bd bc sd sc : ℤ) : Type 0 where
  low :
      200000000 * (pos_part bd + neg_part bc) + 2 * (neg_part sd + pos_part sc)
      ≤ 2 * (pos_part sd + neg_part sc) + 200000000 * (neg_part bd + pos_part bc) + 100000000 * n
  high :
      2 * (pos_part sd + neg_part sc) + 200000000 * (neg_part bd + pos_part bc)
      ≤ 200000000 * (pos_part bd + neg_part bc) + 2 * (neg_part sd + pos_part sc) + 100000000 * n

IsClose-swap : {n : ℕ} {bd bc sd sc : ℤ} → IsClose n bd bc sd sc → IsClose n bc bd sc sd
IsClose-swap h = record { low = omega (arith, h.high); high = omega (arith, h.low) }

IsClose-step :
    {n : ℕ} {bd bc sd sc : ℤ} (a rate : ℤ)
    → IsClose n bd bc sd sc
    → IsClose (suc n) (base_amount a rate +ℤ bd) (pos 0 +ℤ bc) (a *ℤ rate +ℤ sd) (pos 0 +ℤ sc)
IsClose-step {n} {bd} {bc} {sd} {sc} a rate h =
    let r = base_amount_bounds a rate in
    let e₁ = +ℤ_parts (base_amount a rate) bd in
    let e₂ = +ℤ_parts (pos 0) bc in
    let e₃ = +ℤ_parts (a *ℤ rate) sd in
    let e₄ = +ℤ_parts (pos 0) sc in
    record { low = omega (arith, h.low); high = omega (arith, h.high) }

IsWithin-IsClose : {n : ℕ} {a b s : ℤ} → IsClose n a b s s → IsWithin n a b
IsWithin-IsClose {n} {a} {b} {s} h =
    let e₁ = +ℤ_parts a a in
    let e₂ = +ℤ_parts b b in
    let e₃ = +ℤ_parts (a +ℤ a) (pos n) in
    let e₄ = +ℤ_parts (b +ℤ b) (pos n) in (omega (arith, h.low), omega (arith, h.high))

module _ (d : FinancialDocument) (rate : ℤ) where
  debits-lines_of_draft :
      (n : ℕ) (ls : List DraftLine) → debits (lines_of_draft d rate n ls) ≡ side_sum true ls
  unfolding lines_of_draft sum_of
  debits-lines_of_draft n [] = refl
  debits-lines_of_draft n (l ∷ ls) = rw (debits-lines_of_draft (suc n) ls)

  credits-lines_of_draft :
      (n : ℕ) (ls : List DraftLine) → credits (lines_of_draft d rate n ls) ≡ side_sum false ls
  unfolding lines_of_draft sum_of
  credits-lines_of_draft n [] = refl
  credits-lines_of_draft n (l ∷ ls) = rw (credits-lines_of_draft (suc n) ls)

  -- The base amounts of the lines, against the sides of the draft at the rate: each line is off by
  -- at most half of the last place.
  base-lines_of_draft :
      (n : ℕ) (ls : List DraftLine)
      → let rows = lines_of_draft d rate n ls in
        IsClose
          (length rows)
          (base_debits rows)
          (base_credits rows)
          (side_sum true ls *ℤ rate)
          (side_sum false ls *ℤ rate)
  unfolding lines_of_draft sum_of
  base-lines_of_draft n [] = rw (zero_*ℤ rate) (record { low = omega arith; high = omega arith })
  base-lines_of_draft n (l ∷ ls) =
      let rest = base-lines_of_draft (suc n) ls in
      elim (Bool-cases l.debit) [
        | inl on_debit ↦
            rw
              (
                on_debit,
                *ℤ_distrib l.amount (side_sum true ls) rate,
                *ℤ_distrib (pos 0) (side_sum false ls) rate,
                zero_*ℤ rate,
              )
              (IsClose-step l.amount rate rest)
        | inr on_credit ↦
            rw
              (
                on_credit,
                *ℤ_distrib (pos 0) (side_sum true ls) rate,
                *ℤ_distrib l.amount (side_sum false ls) rate,
                zero_*ℤ rate,
              )
              (IsClose-swap (IsClose-step l.amount rate (IsClose-swap rest)))
      ]

  -- The lines of a draft whose sides agree are balanced: in their own currency exactly, in the base
  -- currency up to rounding.
  pub lines_of_draft-IsBalanced :
      (n : ℕ) (ls : List DraftLine)
      → side_sum true ls ≡ side_sum false ls
      → IsBalanced (lines_of_draft d rate n ls)
  lines_of_draft-IsBalanced n ls h = record {
    own = cc (debits-lines_of_draft n ls, credits-lines_of_draft n ls);
    base = IsWithin-IsClose (rw h at (base-lines_of_draft n ls));
  }

module _ (d : FinancialDocument) where
  pub debits-reversed_lines :
      (n : ℕ) (ls : List JournalEntryLine) → debits (reversed_lines d n ls) ≡ credits ls
  unfolding reversed_lines sum_of
  debits-reversed_lines n [] = refl
  debits-reversed_lines n (l ∷ ls) = rw (debits-reversed_lines (suc n) ls)

  pub credits-reversed_lines :
      (n : ℕ) (ls : List JournalEntryLine) → credits (reversed_lines d n ls) ≡ debits ls
  unfolding reversed_lines sum_of
  credits-reversed_lines n [] = refl
  credits-reversed_lines n (l ∷ ls) = rw (credits-reversed_lines (suc n) ls)

  base_debits-reversed_lines :
      (n : ℕ) (ls : List JournalEntryLine) → base_debits (reversed_lines d n ls) ≡ base_credits ls
  unfolding reversed_lines sum_of
  base_debits-reversed_lines n [] = refl
  base_debits-reversed_lines n (l ∷ ls) = rw (base_debits-reversed_lines (suc n) ls)

  base_credits-reversed_lines :
      (n : ℕ) (ls : List JournalEntryLine) → base_credits (reversed_lines d n ls) ≡ base_debits ls
  unfolding reversed_lines sum_of
  base_credits-reversed_lines n [] = refl
  base_credits-reversed_lines n (l ∷ ls) = rw (base_credits-reversed_lines (suc n) ls)

  length-reversed_lines :
      (n : ℕ) (ls : List JournalEntryLine) → length (reversed_lines d n ls) ≡ length ls
  unfolding reversed_lines
  length-reversed_lines n [] = refl
  length-reversed_lines n (l ∷ ls) = rw (length-reversed_lines (suc n) ls)

  -- The mirror of balanced lines is balanced.
  pub reversed_lines-IsBalanced :
      (n : ℕ) (ls : List JournalEntryLine) → IsBalanced ls → IsBalanced (reversed_lines d n ls)
  reversed_lines-IsBalanced n ls h = record {
    own = debits-reversed_lines n ls ∙ sym h.own ∙ sym (credits-reversed_lines n ls);
    base =
        rw
          (
            base_debits-reversed_lines n ls,
            base_credits-reversed_lines n ls,
            length-reversed_lines n ls,
          )
          (h.base.1, h.base.0);
  }
