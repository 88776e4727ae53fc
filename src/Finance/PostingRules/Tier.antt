-- ===== src/Finance/PostingRules/Tier.antt =====
-- What the query of a tier answers.
use mathlib.Core.List.{Perm}
use mathlib.Core.List.Perm
use lcs_system.Shared.{
  ℕ, ◌≡◌, refl, sym, ap, true, Option, some, List, [], ◌∷◌, ltb_ℤ, eqb_ℤ, ◌≤ℤ◌, arith, eq_of_parts,
  All, All-imp, where_rows, ok, err, conflict, ambiguous_posting_rule, some-eq, subst, ok-injective,
  Bool-cases, inl, inr,
}
use lcs_system.Finance.Models.{PostingRule, DocumentType}
use lcs_system.Finance.PostingRules.{in_tier, comes_before, insert_rule, order_rules, pick, tier}

-- No rule has a higher priority than one before it.
abbrev IsOrdered : List PostingRule → Type 0
IsOrdered [] = Unit
IsOrdered (r ∷ rs) = All (λ q. PostingRule.priority q ≤ℤ r.priority) rs × IsOrdered rs

pub All-insert_rule :
    (P : PostingRule → Type 0) (r : PostingRule) (rs : List PostingRule)
    → P r
    → All P rs
    → All P (insert_rule r rs)
unfolding insert_rule
All-insert_rule P r [] h k = (h, tt)
All-insert_rule P r (q ∷ qs) h k = elim (Bool-cases (comes_before r q)) [
  | inl p ↦ rw p (h, k)
  | inr p ↦ rw p (k.0, All-insert_rule P r qs h k.1)
]

insert_rule-IsOrdered :
    (r : PostingRule) (rs : List PostingRule) → IsOrdered rs → IsOrdered (insert_rule r rs)
unfolding insert_rule
insert_rule-IsOrdered r [] h = (tt, tt)
insert_rule-IsOrdered r (q ∷ qs) h = elim (Bool-cases (comes_before r q)) [
  | inl p ↦
      let above : q.priority ≤ℤ r.priority = ground arith in
      rw p ((above, All-imp _ _ qs (λ x le. omega arith) h.0), h)
  | inr p ↦
      let below : r.priority ≤ℤ q.priority = ground arith in
      rw p (
        All-insert_rule (λ x. x.priority ≤ℤ q.priority) r qs below h.0,
        insert_rule-IsOrdered r qs h.1,
      )
]

order_rules-IsOrdered : (rs : List PostingRule) → IsOrdered (order_rules rs)
unfolding order_rules
order_rules-IsOrdered [] = tt
order_rules-IsOrdered (r ∷ rs) = insert_rule-IsOrdered r _ (order_rules-IsOrdered rs)

insert_rule-Perm : (r : PostingRule) (rs : List PostingRule) → Perm (insert_rule r rs) (r ∷ rs)
unfolding insert_rule
insert_rule-Perm r [] = Perm.refl _
insert_rule-Perm r (q ∷ qs) = elim (Bool-cases (comes_before r q)) [
  | inl p ↦ rw p (Perm.refl _)
  | inr p ↦ rw p (Perm.trans (Perm.cons q (insert_rule-Perm r qs)) (Perm.swap r q qs))
]

order_rules-Perm : (rs : List PostingRule) → Perm (order_rules rs) rs
unfolding order_rules
order_rules-Perm [] = Perm.refl _
order_rules-Perm (r ∷ rs) =
    Perm.trans (insert_rule-Perm r (order_rules rs)) (Perm.cons r (order_rules-Perm rs))

-- The first rule, if the two at the front differ in priority.
pick-some :
    (rs : List PostingRule) (r : PostingRule)
    → IsOrdered rs
    → pick rs ≡ ok (some r)
    → (others : List PostingRule) × (rs ≡ r ∷ others)
      × All (λ q. ltb_ℤ (PostingRule.priority q) r.priority ≡ true) others
unfolding pick
pick-some [] r h e = cc
pick-some (top ∷ []) r h e =
    ([], ap (λ (x : PostingRule). x ∷ []) (some-eq (sym (ok-injective e))), tt)
pick-some (top ∷ second ∷ rest) r h e = elim (Bool-cases (eqb_ℤ second.priority top.priority)) [
  | inl p ↦ absurd (err_not_ok (rw p at e))
  | inr p ↦
      let same : top ≡ r = some-eq (sym (ok-injective (rw p at e))) in
      let lower : ltb_ℤ second.priority top.priority ≡ true = ground (arith, h.0.0) in
      (
        second ∷ rest,
        ap (λ (x : PostingRule). x ∷ second ∷ rest) same,
        rw (sym same) (lower, All-imp _ _ rest (λ q le. ground arith) h.1.0),
      )
]
  where
    err_not_ok : {x : Option PostingRule} → err (conflict ambiguous_posting_rule) ≡ ok x → ⊥
    err_not_ok e = cc

-- A rule that a tier answers is the one of the highest priority: the active rules of the scope are,
-- up to their order, that rule and others of lower priority.
pub tier-some :
    (rules : List PostingRule) (t : DocumentType) (fee : Option ℕ) (r : PostingRule)
    → tier rules t fee ≡ ok (some r)
    → (others : List PostingRule) × Perm (where_rows (in_tier t fee) rules) (r ∷ others)
      × All (λ q. ltb_ℤ (PostingRule.priority q) r.priority ≡ true) others
unfolding tier
tier-some rules t fee r e =
    let rows = where_rows (in_tier t fee) rules in
    let (others, same, lower) = pick-some (order_rules rows) r (order_rules-IsOrdered rows) e in
    (
      others,
      Perm.symm (subst (λ (rs : List PostingRule). Perm rs rows) same (order_rules-Perm rows)),
      lower,
    )

pick-ambiguous :
    (rs : List PostingRule)
    → IsOrdered rs
    → pick rs ≡ err (conflict ambiguous_posting_rule)
    → (r q : PostingRule) × (others : List PostingRule) × (rs ≡ r ∷ q ∷ others)
      × (q.priority ≡ r.priority)
      × All (λ x. PostingRule.priority x ≤ℤ r.priority) others
unfolding pick
pick-ambiguous [] h e = cc
pick-ambiguous (top ∷ []) h e = cc
pick-ambiguous (top ∷ second ∷ rest) h e = elim (Bool-cases (eqb_ℤ second.priority top.priority)) [
  | inl p ↦ (top, second, rest, refl, eq_of_parts _ _ (ground arith), h.0.1)
  | inr p ↦ absurd (ok_not_err (rw p at e))
]
  where
    ok_not_err : {x : Option PostingRule} → ok x ≡ err (conflict ambiguous_posting_rule) → ⊥
    ok_not_err e = cc

-- A tier that is refused as ambiguous has two active rules of the scope that share its highest priority.
pub tier-ambiguous :
    (rules : List PostingRule) (t : DocumentType) (fee : Option ℕ)
    → tier rules t fee ≡ err (conflict ambiguous_posting_rule)
    → (r q : PostingRule) × (others : List PostingRule) × Perm
        (where_rows (in_tier t fee) rules)
        (r ∷ q ∷ others)
      × (q.priority ≡ r.priority)
      × All (λ x. PostingRule.priority x ≤ℤ r.priority) others
unfolding tier
tier-ambiguous rules t fee e =
    let rows = where_rows (in_tier t fee) rules in
    let (r, q, others, same, equal, lower) =
      pick-ambiguous (order_rules rows) (order_rules-IsOrdered rows) e in
    (
      r,
      q,
      others,
      Perm.symm (subst (λ (rs : List PostingRule). Perm rs rows) same (order_rules-Perm rows)),
      equal,
      lower,
    )
