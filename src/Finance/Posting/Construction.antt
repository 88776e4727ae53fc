-- ===== src/Finance/Posting/Construction.antt =====
-- The draft that `build` makes, and its balance check.
use lcs_system.Shared.{
  ◌≡◌, refl, sym, ◌∙◌, ap, Bool, true, false, not, ◌&&◌, if◌then◌else◌, none, List, [], ℤ, pos,
  ◌+ℤ◌, ◌≤ℤ◌, leb_ℤ, eqb_ℤ, int_laws, arith, +ℤ_parts, All, ok, err, >>=-eq-ok, ok-injective,
  Bool-cases, inl, inr, is_empty, conflict, journal_unbalanced,
}
use lcs_system.Finance.Models.{DocumentType, Books}
use lcs_system.Finance.PostingRules.{PostingRuleAccounts, resolve}
use lcs_system.Finance.Posting.{
  DocumentLineInput, DraftLine, JournalDraft, PostingStrategy, side_sum, debit_total, credit_total,
  add, strategy_for, is_control_debit, add_lines, add_control, add_two_sided, add_detailed,
  draft_lines, assert_balanced, build,
}
use lcs_system.Finance.Posting.Balance.{
  IsCharge, line_total, has_detail, on_side, side_sum-add, add_lines-sums,
}

two_sided-balanced :
    (control : PostingRuleAccounts) (total : ℤ) (d : JournalDraft)
    → pos 0 ≤ℤ total
    → debit_total d ≡ credit_total d
    → debit_total (add_two_sided control total d) ≡ credit_total (add_two_sided control total d)
unfolding add_two_sided
two_sided-balanced control total d le h =
    let first = add control.debit total true d in
    let d₁ = side_sum-add true control.debit total true d le in
    let c₁ = side_sum-add false control.debit total true d le in
    let d₂ = side_sum-add true control.credit total false first le in
    let c₂ = side_sum-add false control.credit total false first le in
    grind (int_laws, d₁, c₁, d₂, c₂, h)

both_sides :
    (side c : Bool) (head sum total : ℤ)
    → head ≡ side_sum side [] +ℤ on_side side c total
    → sum ≡ head +ℤ on_side side (not c) total
    → sum ≡ total
both_sides true true head sum total h k = grind (int_laws, h, k)
both_sides true false head sum total h k = grind (int_laws, h, k)
both_sides false true head sum total h k = grind (int_laws, h, k)
both_sides false false head sum total h k = grind (int_laws, h, k)

module _ (b : Books) (t : DocumentType) (plan : PostingStrategy) (control : PostingRuleAccounts)
    (total : ℤ) (lines : List DocumentLineInput) (d : JournalDraft) (le : pos 0 ≤ℤ total)
    (charges : All IsCharge lines) (sum : line_total lines ≡ total) (empty : d.lines ≡ []) where
  loop-sums :
      (side : Bool) {m : JournalDraft × Bool}
      → add_lines b t plan control lines (add_control plan control total d, false) ≡ ok m
      → (side_sum side m.0.lines ≡ total) × (m.1 ≡ has_detail plan control lines)
  unfolding add_control
  loop-sums side {m} e =
      let c = is_control_debit plan.side in
      let (x, any) = add_lines-sums b t plan control side lines _ false charges e in
      let head = side_sum-add side (if c then control.debit else control.credit) total c d le in
      (
        both_sides side c _ _ _
            (head ∙ ap (λ (ls : List DraftLine). side_sum side ls +ℤ on_side side c total) empty)
            (rw sum at x),
        ground (arith, any),
      )

  -- Both sides of the draft of a detailed document, before the last branch.
  detailed-sums :
      {d' : JournalDraft}
      → add_detailed b t plan control total lines d ≡ ok d'
      → (debit_total d' ≡ total)
        × (credit_total d' ≡ (if has_detail plan control lines then total else total +ℤ total))
  unfolding add_detailed add_control
  detailed-sums {d'} e =
      let (m, looped, e₁) =
        >>=-eq-ok (add_lines b t plan control lines (add_control plan control total d, false)) _
          e in
      let (x, any) = loop-sums true looped in
      let (y, _) = loop-sums false looped in
      elim (Bool-cases (has_detail plan control lines)) [
        | inl p ↦ rw p (rw (ok-injective (rw (any ∙ p) at e₁)) (x, y))
        | inr p ↦
            let same = ok-injective (rw (any ∙ p) at e₁) in
            rw p (
              rw same (
                (side_sum-add true control.credit total false m.0 le ∙ grind (int_laws, x)),
                (side_sum-add false control.credit total false m.0 le ∙ grind (int_laws, y)),
              ))
      ]

-- The two branches of `draft_lines`.
draft_lines-detailed :
    (b : Books) (t : DocumentType) (control : PostingRuleAccounts) (total : ℤ)
    (lines : List DocumentLineInput)
    → (strategy_for t).detailed && not (is_empty lines) ≡ true
    → draft_lines b t control total lines
      ≡ add_detailed b t
          (strategy_for t)
          control
          total
          lines
          (record { lines = []; rule_id = control.rule_id })
unfolding draft_lines
draft_lines-detailed b t control total lines h = rw h refl

draft_lines-simple :
    (b : Books) (t : DocumentType) (control : PostingRuleAccounts) (total : ℤ)
    (lines : List DocumentLineInput)
    → (strategy_for t).detailed && not (is_empty lines) ≡ false
    → draft_lines b t control total lines
      ≡ ok (add_two_sided control total (record { lines = []; rule_id = control.rule_id }))
unfolding draft_lines
draft_lines-simple b t control total lines h = rw h refl

build-result :
    (b : Books) (t : DocumentType) (control : PostingRuleAccounts) (total : ℤ)
    (lines : List DocumentLineInput) (d : JournalDraft)
    → pos 1 ≤ℤ total
    → resolve b t none ≡ ok control
    → draft_lines b t control total lines ≡ ok d
    → build b t total lines
      ≡ (if eqb_ℤ (debit_total d) (credit_total d) then ok d else err (conflict journal_unbalanced))
unfolding build assert_balanced
build-result b t control total lines d le resolved drafted =
    let above : leb_ℤ total (pos 0) ≡ false = ground arith in
    rw (above, resolved, drafted) (ground arith)

-- For lines that are not negative and add up to a total above zero, of which some leaves an amount
-- beside its tax, the draft balances: `build` returns it.
pub build-balances :
    (b : Books) (t : DocumentType) (control : PostingRuleAccounts) (total : ℤ)
    (lines : List DocumentLineInput) (d : JournalDraft)
    → pos 1 ≤ℤ total
    → All IsCharge lines
    → line_total lines ≡ total
    → has_detail (strategy_for t) control lines ≡ true
    → resolve b t none ≡ ok control
    → draft_lines b t control total lines ≡ ok d
    → build b t total lines ≡ ok d
build-balances b t control total lines d le charges sum detail resolved drafted =
    let low : pos 0 ≤ℤ total = omega arith in
    let start : JournalDraft = record { lines = []; rule_id = control.rule_id } in
    elim (Bool-cases ((strategy_for t).detailed && not (is_empty lines))) [
      | inl p ↦
          let (x, y) =
            detailed-sums b t (strategy_for t) control total lines _ low charges sum refl
              (sym (draft_lines-detailed b t control total lines p) ∙ drafted) in
          returned (x ∙ sym (rw detail at y))
      | inr p ↦
          let two = ok-injective (sym drafted ∙ draft_lines-simple b t control total lines p) in
          returned (rw (sym two) (two_sided-balanced control total start low refl))
    ]
  where
    returned : debit_total d ≡ credit_total d → build b t total lines ≡ ok d
    returned h = build-result b t control total lines d le resolved drafted ∙ ground (arith, h)

refused :
    (d : JournalDraft) (total : ℤ)
    → pos 1 ≤ℤ total
    → debit_total d ≡ total
    → credit_total d ≡ total +ℤ total
    → (if eqb_ℤ (debit_total d) (credit_total d) then ok d else err (conflict journal_unbalanced))
      ≡ err (conflict journal_unbalanced)
refused d total le x y = rw (x, y) (ground (arith, +ℤ_parts total total))

-- When such lines leave nothing beside their taxes, the draft of a detailed type never balances:
-- `build` refuses it.
pub fallback-refused :
    (b : Books) (t : DocumentType) (control : PostingRuleAccounts) (total : ℤ)
    (lines : List DocumentLineInput) (d : JournalDraft)
    → pos 1 ≤ℤ total
    → All IsCharge lines
    → line_total lines ≡ total
    → (strategy_for t).detailed && not (is_empty lines) ≡ true
    → has_detail (strategy_for t) control lines ≡ false
    → resolve b t none ≡ ok control
    → draft_lines b t control total lines ≡ ok d
    → build b t total lines ≡ err (conflict journal_unbalanced)
fallback-refused b t control total lines d le charges sum detailed none_left resolved drafted =
    let low : pos 0 ≤ℤ total = omega arith in
    let (x, y) =
      detailed-sums b t (strategy_for t) control total lines _ low charges sum refl
        (sym (draft_lines-detailed b t control total lines detailed) ∙ drafted) in
    build-result b t control total lines d le resolved drafted
    ∙ refused d total le x (rw none_left at y)
