-- ===== src/Finance/Posting/Balance.antt =====
-- The sums of the draft that a detailed document builds.
use lcs_system.Shared.{
  ◌≡◌, refl, sym, ◌∙◌, ap, Bool, true, false, not, ◌||◌, if◌then◌else◌, Option, none, some, List,
  [], ◌∷◌, ◌++◌, ℤ, pos, ◌+ℤ◌, ◌-ℤ◌, ◌≤ℤ◌, leb_ℤ, ltb_ℤ, min_ℤ, int_laws, arith, -ℤ_parts,
  eq_of_parts, All, ok, >>=-eq-ok, ok-injective, Bool-cases, Option-cases, inl, inr,
}
use lcs_system.Finance.Models.{ChartOfAccount, DocumentType, Books}
use lcs_system.Finance.PostingRules.{PostingRuleAccounts}
use lcs_system.Finance.Posting.{
  DocumentLineInput, DraftLine, JournalDraft, PostingStrategy, side_sum, add, is_control_debit,
  split_tax, net_amount, add_tax, add_line, add_lines, detail_account,
}

-- The sum of the lines' amounts.
unfoldable pub line_total : List DocumentLineInput → ℤ
line_total [] = pos 0
line_total (l ∷ ls) = l.amount +ℤ line_total ls

-- A line's amount and tax are not negative.
abbrev pub IsCharge : DocumentLineInput → Type 0
IsCharge l = (pos 0 ≤ℤ l.amount) × (pos 0 ≤ℤ l.tax)

side_sum-append :
    (side : Bool) (xs ys : List DraftLine)
    → side_sum side (xs ++ ys) ≡ side_sum side xs +ℤ side_sum side ys
side_sum-append true [] ys = grind int_laws
side_sum-append false [] ys = grind int_laws
side_sum-append true (x ∷ xs) ys = grind (int_laws, side_sum-append true xs ys)
side_sum-append false (x ∷ xs) ys = grind (int_laws, side_sum-append false xs ys)

abbrev pub on_side : Bool → Bool → ℤ → ℤ
on_side true debit x = if debit then x else pos 0
on_side false debit x = if debit then pos 0 else x

pub nothing : (side debit : Bool) (y : ℤ) → y ≡ y +ℤ on_side side debit (pos 0)
nothing true true y = grind int_laws
nothing true false y = grind int_laws
nothing false true y = grind int_laws
nothing false false y = grind int_laws

one_line :
    (a : ChartOfAccount) (x : ℤ) (debit side : Bool)
    → side_sum side (record { account = a; amount = x; debit = debit } ∷ []) ≡ on_side side debit x
one_line a x debit true = grind int_laws
one_line a x debit false = grind int_laws

-- An amount that is not negative goes on its side, and on no other.
pub side_sum-add :
    (side : Bool) (a : ChartOfAccount) (x : ℤ) (debit : Bool) (d : JournalDraft)
    → pos 0 ≤ℤ x
    → side_sum side (add a x debit d).lines ≡ side_sum side d.lines +ℤ on_side side debit x
unfolding add
side_sum-add side a x debit d le = elim (Bool-cases (leb_ℤ x (pos 0))) [
  | inl none_left ↦
      let zero : x ≡ pos 0 = eq_of_parts _ _ (ground arith) in
      rw none_left (rw zero (nothing side debit (side_sum side d.lines)))
  | inr some_left ↦ rw some_left (
      side_sum-append side d.lines (record { account = a; amount = x; debit = debit } ∷ [])
      ∙ ap (λ (y : ℤ). side_sum side d.lines +ℤ y) (one_line a x debit side))
]

on_side_add :
    (side debit : Bool) (x y : ℤ)
    → on_side side debit x +ℤ on_side side debit y ≡ on_side side debit (x +ℤ y)
on_side_add true true x y = refl
on_side_add true false x y = grind int_laws
on_side_add false true x y = grind int_laws
on_side_add false false x y = refl

-- What a line's tax takes is between nothing and the line's amount.
abbrev taxed : Option (ChartOfAccount × ℤ) → ℤ
taxed none = pos 0
taxed (some (_, x)) = x

tax_bounds :
    (amount tax : ℤ)
    → (pos 0 ≤ℤ amount) × (pos 0 ≤ℤ tax)
    → (pos 0 ≤ℤ min_ℤ tax amount)
      × (pos 0 ≤ℤ amount -ℤ min_ℤ tax amount)
      × (min_ℤ tax amount +ℤ (amount -ℤ min_ℤ tax amount) ≡ amount)
tax_bounds amount tax h =
    (ground arith, ground (arith, -ℤ_parts amount tax, -ℤ_parts amount amount), grind int_laws)

split_tax_bounds :
    (plan : PostingStrategy) (control : PostingRuleAccounts) (l : DocumentLineInput)
    → IsCharge l
    → (pos 0 ≤ℤ taxed (split_tax plan control l))
      × (pos 0 ≤ℤ net_amount (split_tax plan control l) l)
      × (taxed (split_tax plan control l) +ℤ net_amount (split_tax plan control l) l ≡ l.amount)
split_tax_bounds plan control l h = elim (Bool-cases plan.splits_tax) [
  | inl p ↦ elim (Option-cases control.tax) [
    | inl q ↦ rw (p, q) (whole_line h)
    | inr (a, q) ↦ rw (p, q) (tax_bounds l.amount l.tax h)
  ]
  | inr p ↦ rw p (whole_line h)
]
  where
    whole_line :
        IsCharge l → (pos 0 ≤ℤ pos 0) × (pos 0 ≤ℤ l.amount) × (pos 0 +ℤ l.amount ≡ l.amount)
    whole_line h = (omega arith, h.0, grind int_laws)

side_sum-add_tax :
    (side debit : Bool) (split : Option (ChartOfAccount × ℤ)) (d : JournalDraft)
    → pos 0 ≤ℤ taxed split
    → side_sum side (add_tax split debit d).lines
      ≡ side_sum side d.lines +ℤ on_side side debit (taxed split)
side_sum-add_tax side debit none d le = nothing side debit _
side_sum-add_tax side debit (some (a, x)) d le = elim (Bool-cases (ltb_ℤ (pos 0) x)) [
  | inl p ↦ rw p (side_sum-add side a x debit d le)
  | inr p ↦
      let zero : x ≡ pos 0 = eq_of_parts _ _ (ground arith) in
      rw p (rw zero (nothing side debit (side_sum side d.lines)))
]

-- A line that leaves something to post beside its tax.
abbrev pub is_detail : PostingStrategy → PostingRuleAccounts → DocumentLineInput → Bool
is_detail plan control l = not (leb_ℤ (net_amount (split_tax plan control l) l) (pos 0))

abbrev pub has_detail : PostingStrategy → PostingRuleAccounts → List DocumentLineInput → Bool
has_detail plan control [] = false
has_detail plan control (l ∷ ls) = is_detail plan control l || has_detail plan control ls

added : (x y z u v : ℤ) → x ≡ y +ℤ z → z +ℤ u ≡ v → x +ℤ u ≡ y +ℤ v
added x y z u v h k = grind (int_laws, h, k)

-- One turn of the loop puts the line's amount on the detail side.
module _ (b : Books) (t : DocumentType) (plan : PostingStrategy)
    (control : PostingRuleAccounts) where
  add_line-sums :
      (side : Bool) (l : DocumentLineInput) (d : JournalDraft) (any : Bool)
      {s : JournalDraft × Bool}
      → IsCharge l
      → add_line b t plan control l (d, any) ≡ ok s
      → (side_sum side s.0.lines
          ≡ side_sum side d.lines +ℤ on_side side (not (is_control_debit plan.side)) l.amount)
        × (s.1 ≡ (is_detail plan control l || any))
  unfolding add_line
  add_line-sums side l d any {s} h e =
      let debit = not (is_control_debit plan.side) in
      let split = split_tax plan control l in
      let (low, net, sum) = split_tax_bounds plan control l h in
      let before = side_sum-add_tax side debit split d low in
      elim (Bool-cases (leb_ℤ (net_amount split l) (pos 0))) [
        | inl p ↦
            let zero : net_amount split l ≡ pos 0 = eq_of_parts _ _ (ground arith) in
            let all : taxed split +ℤ pos 0 ≡ l.amount =
              ap (λ (y : ℤ). taxed split +ℤ y) (sym zero) ∙ sum in
            let same = ok-injective (rw p at e) in
            rw (same, p)
              (
                before
                    ∙ ap (λ (y : ℤ). side_sum side d.lines +ℤ on_side side debit y)
                        (grind (int_laws, all)),
                refl,
              )
        | inr p ↦
            let (account, _, e₁) = >>=-eq-ok (detail_account b t l) _ (rw p at e) in
            let same = ok-injective e₁ in
            let both =
              on_side_add side debit (taxed split) (net_amount split l)
              ∙ ap (on_side side debit) sum in
            let last =
              side_sum-append side (add_tax split debit d).lines
                (record { account = account; amount = net_amount split l; debit = debit } ∷ [])
              ∙ ap (λ (y : ℤ). side_sum side (add_tax split debit d).lines +ℤ y)
                  (one_line account (net_amount split l) debit side) in
            rw (same, p) (last ∙ added _ _ _ _ _ before both, refl)
      ]

  -- The whole loop puts the lines' total there.
  pub add_lines-sums :
      (side : Bool) (ls : List DocumentLineInput) (d : JournalDraft) (any : Bool)
      {s : JournalDraft × Bool}
      → All IsCharge ls
      → add_lines b t plan control ls (d, any) ≡ ok s
      → (side_sum side s.0.lines
          ≡ side_sum side d.lines
            +ℤ on_side side (not (is_control_debit plan.side)) (line_total ls))
        × (s.1 ≡ (has_detail plan control ls || any))
  unfolding add_lines line_total
  add_lines-sums side [] d any {s} h e =
      let same = ok-injective e in rw same (nothing side (not (is_control_debit plan.side)) _, refl)
  add_lines-sums side (l ∷ ls) d any {s} h e =
      let (m, one, e₁) = >>=-eq-ok (add_line b t plan control l (d, any)) _ e in
      let (a, x) = add_line-sums side l d any h.0 one in
      let (c, y) = add_lines-sums side ls m.0 m.1 h.1 e₁ in
      let both = on_side_add side (not (is_control_debit plan.side)) l.amount (line_total ls) in
      (grind (int_laws, a, c, both), ground (arith, x, y))
