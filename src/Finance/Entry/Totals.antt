-- ===== src/Finance/Entry/Totals.antt =====
-- The lines of a save, and its totals.
use lcs_system.Shared.{
  suc, ◌+◌, ◌*◌, ◌≤◌, ◌≡◌, refl, false, ◌||◌, not, List, [], ◌∷◌, map, ℤ, pos, negsuc, pos_part,
  neg_part, ◌+ℤ◌, ◌-ℤ◌, ◌*ℤ◌, ◌≤ℤ◌, ltb_ℤ, +ℤ_parts, -ℤ_parts, arith, int_laws, length, All, ok,
  validation_failed, raise_if-eq-ok, >>=-eq-ok, ok-injective,
}
use lcs_system.Finance.Fx.{quantize, round_half_up}
use lcs_system.Finance.Fx.Rounding.{round_half_up_nearest}
use lcs_system.Finance.Models.{ChartOfAccount, FinancialDocumentLine}
use lcs_system.Finance.Ledger.{money_column}
use lcs_system.Finance.Ledger.Balanced.{IsWithin, *ℤ_parts}
use lcs_system.Finance.Entry.{
  LineInput, EntryLine, entry_line, entry_lines, exact_amount, line_total, parse_decimal,
  first_given, resolve_line_tax, line_account_id,
}
use lcs_system.Finance.Entry.Save.{exact_total}

-- What a column keeps of a count of 10^-13 is within half of its last place.
column_bounds :
    (c : ℤ)
    → let q = money_column (exact_amount c) in
      (2000000000 * pos_part q + 2 * neg_part c
        ≤ 2 * pos_part c + 2000000000 * neg_part q + 1000000000)
      × (2 * pos_part c + 2000000000 * neg_part q
          ≤ 2000000000 * pos_part q + 2 * neg_part c + 1000000000)
unfolding quantize
column_bounds c =
    let q = round_half_up 1000000000 c in
    let (low, high) = round_half_up_nearest 1000000000 c (omega arith) in
    let u = pos 2000000000 *ℤ q in
    let w = pos 2 *ℤ c in
    let e₁ = *ℤ_parts (pos 2000000000) q in
    let e₂ = *ℤ_parts (pos 2) c in
    let e₃ = +ℤ_parts w (pos 1000000000) in
    let e₄ = +ℤ_parts u (pos 1000000000) in (omega arith, omega arith)

column_sign : (c : ℤ) → pos 0 ≤ℤ c → pos 0 ≤ℤ money_column (exact_amount c)
unfolding quantize round_half_up
column_sign (pos n) h = omega arith
column_sign (negsuc n) h = absurd (omega (arith, h))

-- A line whose discount is at most its base and whose tax is not negative, written to its columns.
pub record IsPriced (l : EntryLine) : Type 0 where
  pub discount : pos 0 ≤ℤ l.discount
  pub net : l.discount ≤ℤ l.base
  pub tax : pos 0 ≤ℤ l.tax
  pub amount_kept : l.row.line_amount ≡ money_column (exact_amount (line_total l))
  pub tax_kept : l.row.tax_amount ≡ money_column (exact_amount l.tax)

not_less : (a b : ℤ) → ltb_ℤ a b ≡ false → b ≤ℤ a
not_less a b h = ground arith

neither_less : (a b c d : ℤ) → (ltb_ℤ a b || ltb_ℤ c d) ≡ false → (b ≤ℤ a) × (d ≤ℤ c)
neither_less a b c d h = ground arith

scaled : (a b : ℤ) → a ≤ℤ b → a *ℤ pos 1000000 ≤ℤ b *ℤ pos 1000000
scaled a b h = let e₁ = *ℤ_parts a (pos 1000000) in let e₂ = *ℤ_parts b (pos 1000000) in omega arith

raised : (a : ℤ) → pos 0 ≤ℤ a → pos 0 ≤ℤ a *ℤ pos 1000 *ℤ pos 1000000
raised a h =
    let e₁ = *ℤ_parts a (pos 1000) in let e₂ = *ℤ_parts (a *ℤ pos 1000) (pos 1000000) in omega arith

pub entry_line-IsPriced :
    (accounts : List ChartOfAccount) (l : LineInput) {e : EntryLine}
    → entry_line accounts l ≡ ok e
    → IsPriced e
unfolding entry_line
entry_line-IsPriced accounts l h =
    let (quantity, _, h₁) = >>=-eq-ok (parse_decimal 3 (pos 1000) l.quantity) _ h in
    let (price, _, h₂) =
      >>=-eq-ok (parse_decimal 4 (pos 0) (first_given l.unit_price l.unit_amount)) _ h₁ in
    let (discount, _, h₃) = >>=-eq-ok (parse_decimal 4 (pos 0) l.discount) _ h₂ in
    let base = quantity *ℤ price in
    let off = discount *ℤ pos 1000 in
    let (_, h₄) = raise_if-eq-ok (not (ltb_ℤ (pos 0) quantity)) validation_failed _ h₃ in
    let (_, h₅) = raise_if-eq-ok (ltb_ℤ price (pos 0)) validation_failed _ h₄ in
    let (bounded, h₆) =
      raise_if-eq-ok (ltb_ℤ discount (pos 0) || ltb_ℤ base off) validation_failed _ h₅ in
    let (tax, _, h₇) = >>=-eq-ok (resolve_line_tax l (base -ℤ off)) _ h₆ in
    let (taxed, h₈) = raise_if-eq-ok (ltb_ℤ tax.amount (pos 0)) validation_failed _ h₇ in
    let (_, h₉) = raise_if-eq-ok (not tax.rate_in_range) validation_failed _ h₈ in
    let (fee, _, g₁) = >>=-eq-ok l.fee_type _ h₉ in
    let (account, _, g₂) = >>=-eq-ok (line_account_id accounts l.account) _ g₁ in
    let (above, below) = neither_less discount (pos 0) base off bounded in
    rw (ok-injective g₂) (record {
      discount = raised discount above;
      net = scaled off base below;
      tax = not_less tax.amount (pos 0) taxed;
      amount_kept = refl;
      tax_kept = refl;
    })

pub entry_lines-IsPriced :
    (accounts : List ChartOfAccount) (ls : List LineInput) {es : List EntryLine}
    → entry_lines accounts ls ≡ ok es
    → All IsPriced es
unfolding entry_lines
entry_lines-IsPriced accounts [] h = rw (ok-injective h) tt
entry_lines-IsPriced accounts (l ∷ ls) h =
    let (e, here, h₁) = >>=-eq-ok (entry_line accounts l) _ h in
    let (es, rest, h₂) = >>=-eq-ok (entry_lines accounts ls) _ h₁ in
    rw (ok-injective h₂)
      (entry_line-IsPriced accounts l here, entry_lines-IsPriced accounts ls rest)

-- `sum(line.line_amount for line in lines)`
pub sum_amounts : List FinancialDocumentLine → ℤ
sum_amounts [] = pos 0
sum_amounts (l ∷ ls) = l.line_amount +ℤ sum_amounts ls

exact_total_none : exact_total [] ≡ pos 0
unfolding ◌+ℤ◌ ◌-ℤ◌
exact_total_none = refl

exact_total_step :
    (e : EntryLine) (es : List EntryLine) → exact_total (e ∷ es) ≡ line_total e +ℤ exact_total es
exact_total_step e es = grind int_laws

-- The written amounts of the lines, against the exact total.
amounts_bounds :
    (es : List EntryLine)
    → All IsPriced es
    → let s = sum_amounts (map (λ e. e.row) es) in
      let t = exact_total es in
      let n = length (map (λ e. e.row) es) in
      (2000000000 * pos_part s + 2 * neg_part t
        ≤ 2 * pos_part t + 2000000000 * neg_part s + 1000000000 * n)
      × (2 * pos_part t + 2000000000 * neg_part s
          ≤ 2000000000 * pos_part s + 2 * neg_part t + 1000000000 * n)
unfolding sum_amounts
amounts_bounds [] h = rw exact_total_none (omega arith, omega arith)
amounts_bounds (e ∷ es) h =
    let s = sum_amounts (map (λ l. l.row) es) in
    let t = exact_total es in
    let (low, high) = amounts_bounds es h.1 in
    let (here_low, here_high) = column_bounds (line_total e) in
    let e₁ = +ℤ_parts (money_column (exact_amount (line_total e))) s in
    let e₂ = +ℤ_parts (line_total e) t in
    rw (exact_total_step e es, h.0.amount_kept) (omega arith, omega arith)

-- The written amounts of priced lines sum to the written total, up to half of the last place for
-- each line and one more.
pub sum_amounts-IsWithin :
    (es : List EntryLine)
    → All IsPriced es
    → let rows = map (λ e. e.row) es in
      IsWithin (suc (length rows)) (sum_amounts rows) (money_column (exact_amount (exact_total es)))
sum_amounts-IsWithin es h =
    let rows = map (λ e. e.row) es in
    let s = sum_amounts rows in
    let q = money_column (exact_amount (exact_total es)) in
    let n = suc (length rows) in
    let (low, high) = amounts_bounds es h in
    let (all_low, all_high) = column_bounds (exact_total es) in
    let e₁ = +ℤ_parts s s in
    let e₂ = +ℤ_parts q q in
    let e₃ = +ℤ_parts (s +ℤ s) (pos n) in
    let e₄ = +ℤ_parts (q +ℤ q) (pos n) in (omega arith, omega arith)

-- A line that neither charges less than nothing nor is taxed less than nothing.
pub record IsCharge (l : FinancialDocumentLine) : Type 0 where
  pub amount : pos 0 ≤ℤ l.line_amount
  pub tax : pos 0 ≤ℤ l.tax_amount

line_total_sign : {e : EntryLine} → IsPriced e → pos 0 ≤ℤ line_total e
line_total_sign {e} h =
    let net = h.net in
    let tax = h.tax in
    let e₁ = -ℤ_parts e.base e.discount in
    let e₂ = +ℤ_parts (e.base -ℤ e.discount) e.tax in omega arith

row-IsCharge : {e : EntryLine} → IsPriced e → IsCharge e.row
row-IsCharge {e} h = record {
  amount = rw h.amount_kept (column_sign (line_total e) (line_total_sign h));
  tax = rw h.tax_kept (column_sign e.tax h.tax);
}

pub rows-IsCharge : (es : List EntryLine) → All IsPriced es → All IsCharge (map (λ e. e.row) es)
rows-IsCharge [] h = tt
rows-IsCharge (e ∷ es) h = (row-IsCharge h.0, rows-IsCharge es h.1)
