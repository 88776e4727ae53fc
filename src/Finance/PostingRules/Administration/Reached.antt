-- ===== src/Finance/PostingRules/Administration/Reached.antt =====
-- Calls of the administration of posting rules, one after the other, and the check that they make
-- before the database makes its own.
use lcs_system.Shared.{
  ℕ, zero, ◌≡◌, ◌≢◌, ◌↔◌, refl, suc, ◌==◌, or_else, Bool, true, false, ◌&&◌, not, Option, none,
  some, List, [], ◌∷◌, pos_part, neg_part, ◌+◌, arith, ok, err, conflict, raise_if,
  ambiguous_posting_rule, duplicate_posting_rule, record_active, delete_blocked, not_found, All,
  All-imp, All-is_found, first_row, is_found, Bool-cases, Option-cases, inl, inr, >>=-eq-ok,
  or_raise-eq-ok, raise_if-eq-ok, ok-injective, same_key, where_rows,
}
use lcs_system.Finance.Models.{PostingRule, DocumentType, Books}
use lcs_system.Finance.PostingRules.{is_active, resolve, type_code}
use lcs_system.Finance.PostingRules.Administration.{
  PostingRuleInput, RuleValues, collides, duplicates, index_holds, flush_rule, row_of, rewrite,
  create_posting_rule, update_posting_rule, delete_posting_rules, find_rule, posting_rule_data,
  assert_unique_priority, refers_to_rule,
}
use lcs_system.Finance.PostingRules.Administration.Unique.{
  AreApart, index_holds-AreApart, where_rows-AreApart, resolve-Decides, eqb_sym,
}

infix 5 ◌⟶◌ ◌⟶*◌
pub data ◌⟶◌ : Books → Books → Type 0 where
  created : {b b' : Books} (input : PostingRuleInput) → create_posting_rule input b ≡ ok b' → b ⟶ b'
  updated :
      {b b' : Books} (key : ℕ) (input : PostingRuleInput)
      → update_posting_rule key input b ≡ ok b'
      → b ⟶ b'
  deleted : {b b' : Books} (keys : List ℕ) → delete_posting_rules keys b ≡ ok b' → b ⟶ b'

pub data ◌⟶*◌ : Books → Books → Type 0 where
  here : {b : Books} → b ⟶* b
  then : {a b c : Books} → a ⟶ b → b ⟶* c → a ⟶* c

-- A flush that goes through leaves the index as it demands.
flush_rule-holds :
    (rules : List PostingRule) (b : Books) {b' : Books}
    → flush_rule rules b ≡ ok b'
    → index_holds b'.rules ≡ true
unfolding flush_rule
flush_rule-holds rules b {b'} e =
    let (passed, e₁) =
      raise_if-eq-ok (not (index_holds rules)) (conflict duplicate_posting_rule) _ e in
    rw (ok-injective e₁) (not-false passed)
  where
    not-false : {c : Bool} → not c ≡ false → c ≡ true
    not-false h = ground arith

delete_posting_rules-AreApart :
    (keys : List ℕ) (b : Books) {b' : Books}
    → delete_posting_rules keys b ≡ ok b'
    → AreApart b.rules
    → AreApart b'.rules
unfolding delete_posting_rules
delete_posting_rules-AreApart [] b e h = rw (ok-injective e) h
delete_posting_rules-AreApart (key ∷ keys) b e h = elim (Option-cases (find_rule key b.rules)) [
  | inl missing ↦ delete_posting_rules-AreApart keys b (rw (missing, delete_posting_rules) at e) h
  | inr (rule, found) ↦
      let (_, e₁) =
        raise_if-eq-ok (is_active rule.status) (conflict record_active) _
          (rw (found, delete_posting_rules) at e) in
      let (_, e₂) =
        raise_if-eq-ok (is_found (first_row (refers_to_rule key) b.entries))
          (conflict delete_blocked) _ e₁ in
      delete_posting_rules-AreApart keys
        (record b { rules = where_rows (λ r. not (r.id == key)) b.rules }) e₂
        (where_rows-AreApart _ b.rules h)
]

-- One call keeps the rules apart.
step-AreApart : {b b' : Books} → b ⟶ b' → AreApart b.rules → AreApart b'.rules
unfolding create_posting_rule update_posting_rule
step-AreApart {b} {b'} (created input e) h =
    let (v, _, e₁) = >>=-eq-ok (posting_rule_data b input none) _ e in
    index_holds-AreApart b'.rules
      (flush_rule-holds (row_of b.next_id v ∷ b.rules) (record b { next_id = suc b.next_id }) e₁)
step-AreApart {b} {b'} (updated key input e) h =
    let (rule, _, e₁) = or_raise-eq-ok (find_rule key b.rules) not_found _ e in
    let (v, _, e₂) = >>=-eq-ok (posting_rule_data b input (some rule)) _ e₁ in
    index_holds-AreApart b'.rules (flush_rule-holds (rewrite key v b.rules) b e₂)
step-AreApart {b} (deleted keys e) h = delete_posting_rules-AreApart keys b e h

steps-AreApart : {b b' : Books} → b ⟶* b' → AreApart b.rules → AreApart b'.rules
steps-AreApart here h = h
steps-AreApart (then s rest) h = steps-AreApart rest (step-AreApart s h)

-- After any sequence of calls that create, edit and delete rules, from a table that its index
-- admits, no document is refused for an ambiguous rule.
pub reached-resolves :
    {b b' : Books} (t : DocumentType) (fee : Option ℕ)
    → b ⟶* b'
    → index_holds b.rules ≡ true
    → resolve b' t fee ≢ err (conflict ambiguous_posting_rule)
reached-resolves {b} {b'} t fee steps h =
    resolve-Decides b' t fee (steps-AreApart steps (index_holds-AreApart b.rules h))

-- A fee type's key, which counts from 1.
abbrev pub IsFeeKey : Option ℕ → Type 0
IsFeeKey fee = fee ≢ some 0

same_key-or_else :
    (a b : Option ℕ) → IsFeeKey a → IsFeeKey b → same_key a b ≡ (or_else b 0 == or_else a 0)
same_key-or_else none none h k = refl
same_key-or_else none (some zero) h k = absurd (k refl)
same_key-or_else none (some (suc b)) h k = ground arith
same_key-or_else (some zero) none h k = absurd (h refl)
same_key-or_else (some (suc a)) none h k = ground arith
same_key-or_else (some a) (some b) h k = eqb_sym a b

-- The query of the check and the index see the same duplicate of an active rule.
duplicates-collides :
    (v : RuleValues) (key : ℕ) (r : PostingRule)
    → is_active v.status ≡ true
    → IsFeeKey v.fee_type_id
    → IsFeeKey r.fee_type_id
    → duplicates v none r ≡ collides (row_of key v) r
duplicates-collides v key r live h k =
    rw
      (
        live,
        same_key-or_else r.fee_type_id v.fee_type_id k h,
        eqb_sym (type_code r.document_type) (type_code v.document_type),
        eqb_sym (pos_part r.priority + neg_part v.priority)
            (pos_part v.priority + neg_part r.priority),
      )
      (ground arith)

found_together :
    (p q : PostingRule → Bool) (rs : List PostingRule)
    → All (λ r. p r ≡ q r) rs
    → is_found (first_row p rs) ≡ is_found (first_row q rs)
found_together p q [] h = refl
found_together p q (r ∷ rs) h =
    rw h.0
      (elim (Bool-cases (q r)) [ inl t ↦ rw t refl | inr f ↦ rw f (found_together p q rs h.1) ])

not_live :
    (v : RuleValues) (key : ℕ) (r : PostingRule)
    → is_active v.status ≡ false
    → collides (row_of key v) r ≡ false
not_live v key r dead = rw dead refl

passes :
    (c : Bool) → (raise_if c (conflict duplicate_posting_rule) ≡ ok tt) ↔ ((not c && true) ≡ true)
passes true = ((λ h. cc), (λ h. cc))
passes false = ((λ h. refl), (λ h. refl))

-- The check of a new row comes to what the index then says: of a table that the index admits, it
-- refuses exactly the rows with which the index would not hold.
pub assert_unique_priority-index_holds :
    (rules : List PostingRule) (v : RuleValues) (key : ℕ)
    → index_holds rules ≡ true
    → All (λ r. IsFeeKey (PostingRule.fee_type_id r)) rules
    → IsFeeKey v.fee_type_id
    → (assert_unique_priority rules v none ≡ ok tt) ↔ (index_holds (row_of key v ∷ rules) ≡ true)
unfolding assert_unique_priority index_holds
assert_unique_priority-index_holds rules v key h keys fee = elim (Bool-cases (is_active v.status)) [
  | inl live ↦
      rw
        (
          live,
          h,
          found_together (duplicates v none) (collides (row_of key v)) rules
              (All-imp _ _ rules (λ r k. duplicates-collides v key r live fee k) keys),
        )
        (passes _)
  | inr dead ↦
      let free : is_found (first_row (collides (row_of key v)) rules) ≡ false =
        All-is_found _ rules (All-imp _ _ rules (λ r k. not_live v key r dead) keys) in
      rw (dead, h, free) ((λ _. refl), (λ _. refl))
]
