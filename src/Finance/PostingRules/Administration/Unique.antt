-- ===== src/Finance/PostingRules/Administration/Unique.antt =====
-- The rules after calls of the administration, and what a tier makes of them.
use lcs_system.Shared.{
  ℕ, ◌≡◌, ◌≢◌, refl, ◌==◌, or_else, Bool, true, false, ◌&&◌, Option, none, some, List, [], ◌∷◌, ◌+◌,
  pos_part, neg_part, eqb_ℤ, arith, ok, err, conflict, ambiguous_posting_rule, All, All-where_rows,
  Outcome, ◌>>=◌, or_raise, validation_failed, zero, suc, same_key, eqb→eq, eqb_refl, is_found-All,
  where_rows, first_row, is_found, Bool-cases, inl, inr,
}
use lcs_system.Finance.Models.{PostingRule, DocumentType, ChartOfAccount, Books}
use lcs_system.Finance.PostingRules.{
  in_tier, comes_before, insert_rule, order_rules, pick, tier, is_active, resolve, type_code,
  select_rule, validate_postable, rule_accounts, legacy_accounts, tax_account, default_accounts,
}
use lcs_system.Finance.PostingRules.Tier.{All-insert_rule}
use lcs_system.Finance.PostingRules.Administration.{collides, index_holds}

pub eqb_sym : (a b : ℕ) → (a == b) ≡ (b == a)
eqb_sym a b = ground arith

&&_comm : (a b : Bool) → (a && b) ≡ (b && a)
&&_comm a b = ground arith

collides_sym : (r q : PostingRule) → collides r q ≡ collides q r
collides_sym r q =
    rw
      (
        &&_comm (is_active r.status) (is_active q.status),
        eqb_sym (type_code r.document_type) (type_code q.document_type),
        eqb_sym (or_else r.fee_type_id 0) (or_else q.fee_type_id 0),
        eqb_sym (pos_part r.priority + neg_part q.priority)
            (pos_part q.priority + neg_part r.priority),
      )
      refl

-- No two rows collide.
abbrev pub AreApart : List PostingRule → Type 0
AreApart [] = Unit
AreApart (r ∷ rs) = All (λ q. collides r q ≡ false) rs × AreApart rs

pub index_holds-AreApart : (rs : List PostingRule) → index_holds rs ≡ true → AreApart rs
unfolding index_holds
index_holds-AreApart [] h = tt
index_holds-AreApart (r ∷ rs) h = elim (Bool-cases (is_found (first_row (collides r) rs))) [
  | inl found ↦ cc (rw found at h)
  | inr free ↦ (is_found-All (collides r) rs free, index_holds-AreApart rs (rw free at h))
]

pub where_rows-AreApart :
    (p : PostingRule → Bool) (rs : List PostingRule) → AreApart rs → AreApart (where_rows p rs)
where_rows-AreApart p [] h = tt
where_rows-AreApart p (r ∷ rs) h = elim (Bool-cases (p r)) [
  | inl t ↦ rw t (All-where_rows _ p rs h.0, where_rows-AreApart p rs h.1)
  | inr f ↦ rw f (where_rows-AreApart p rs h.1)
]

insert_rule-AreApart :
    (r : PostingRule) (rs : List PostingRule) → AreApart (r ∷ rs) → AreApart (insert_rule r rs)
unfolding insert_rule
insert_rule-AreApart r [] h = h
insert_rule-AreApart r (q ∷ qs) h = elim (Bool-cases (comes_before r q)) [
  | inl p ↦ rw p h
  | inr p ↦ rw p (
    All-insert_rule _ r qs (rw (collides_sym q r) h.0.0) h.1.0,
    insert_rule-AreApart r qs (h.0.1, h.1.1),
  )
]

All-order_rules :
    (P : PostingRule → Type 0) (rs : List PostingRule) → All P rs → All P (order_rules rs)
unfolding order_rules
All-order_rules P [] h = tt
All-order_rules P (r ∷ rs) h = All-insert_rule P r _ h.0 (All-order_rules P rs h.1)

order_rules-AreApart : (rs : List PostingRule) → AreApart rs → AreApart (order_rules rs)
unfolding order_rules
order_rules-AreApart [] h = tt
order_rules-AreApart (r ∷ rs) h =
    insert_rule-AreApart r _ (All-order_rules _ rs h.0, order_rules-AreApart rs h.1)

where_rows-All :
    (p : PostingRule → Bool) (rs : List PostingRule) → All (λ r. p r ≡ true) (where_rows p rs)
where_rows-All p [] = tt
where_rows-All p (r ∷ rs) = elim (Bool-cases (p r)) [
  | inl t ↦ rw t (t, where_rows-All p rs)
  | inr f ↦ rw f (where_rows-All p rs)
]

&&-true : (a b : Bool) → (a && b) ≡ true → (a ≡ true) × (b ≡ true)
&&-true true b h = (refl, h)
&&-true false b h = cc

same_key-or_else : (a b : Option ℕ) → same_key a b ≡ true → or_else a 0 ≡ or_else b 0
same_key-or_else none none h = refl
same_key-or_else none (some _) h = cc
same_key-or_else (some _) none h = cc
same_key-or_else (some a) (some b) h = eqb→eq a b h

-- Two rules of one scope with one priority collide.
in_tier-collides :
    (t : DocumentType) (fee : Option ℕ) (r q : PostingRule)
    → in_tier t fee r ≡ true
    → in_tier t fee q ≡ true
    → eqb_ℤ q.priority r.priority ≡ true
    → collides r q ≡ true
in_tier-collides t fee r q h k e =
    let (scope_r, active_r) = &&-true _ (is_active r.status) h in
    let (type_r, fee_r) = &&-true _ (same_key r.fee_type_id fee) scope_r in
    let (scope_q, active_q) = &&-true _ (is_active q.status) k in
    let (type_q, fee_q) = &&-true _ (same_key q.fee_type_id fee) scope_q in
    rw
      (
        active_r,
        active_q,
        eqb→eq (type_code r.document_type) (type_code t) type_r,
        eqb→eq (type_code q.document_type) (type_code t) type_q,
        same_key-or_else r.fee_type_id fee fee_r,
        same_key-or_else q.fee_type_id fee fee_q,
        eqb_refl (type_code t),
        eqb_refl (or_else fee 0),
        eqb_sym (pos_part r.priority + neg_part q.priority)
            (pos_part q.priority + neg_part r.priority),
        e,
      )
      refl

-- A result that is no refusal for an ambiguous rule.
abbrev Decides : {A : Type 0} → Outcome A → Type 0
Decides m = m ≢ err (conflict ambiguous_posting_rule)

ok-Decides : {A : Type 0} (a : A) → Decides (ok a)
ok-Decides a e = cc

err-Decides : {A : Type 0} → Decides {A = A} (err validation_failed)
err-Decides e = cc

>>=-Decides :
    {A B : Type 0} (m : Outcome A) (next : A → Outcome B)
    → Decides m
    → ((a : A) → Decides (next a))
    → Decides (m >>= next)
>>=-Decides (err e) next first rest h = first cc
>>=-Decides (ok a) next first rest h = rest a h

pick-Decides :
    (t : DocumentType) (fee : Option ℕ) (rs : List PostingRule)
    → All (λ r. in_tier t fee r ≡ true) rs
    → AreApart rs
    → Decides (pick rs)
unfolding pick
pick-Decides t fee [] scope apart e = cc
pick-Decides t fee (top ∷ []) scope apart e = cc
pick-Decides t fee (top ∷ second ∷ rest) (in_top, scope) apart e =
    elim (Bool-cases (eqb_ℤ second.priority top.priority)) [
      | inl same ↦ cc (in_tier-collides t fee top second in_top scope.0 same, apart.0.0)
      | inr differ ↦ ok-Decides _ (rw differ at e)
    ]

tier-Decides :
    (rules : List PostingRule) (t : DocumentType) (fee : Option ℕ)
    → AreApart rules
    → Decides (tier rules t fee)
unfolding tier
tier-Decides rules t fee apart e =
    let rows = where_rows (in_tier t fee) rules in
    pick-Decides t fee (order_rules rows) (All-order_rules _ rows (where_rows-All _ rules))
      (order_rules-AreApart rows (where_rows-AreApart _ rules apart)) e

select_rule-Decides :
    (rules : List PostingRule) (t : DocumentType) (fee : Option ℕ)
    → AreApart rules
    → Decides (select_rule rules t fee)
unfolding select_rule
select_rule-Decides rules t none apart = tier-Decides rules t none apart
select_rule-Decides rules t (some fee) apart =
    >>=-Decides (tier rules t (some fee)) _ (tier-Decides rules t (some fee) apart)
      (λ found. otherwise found)
  where
    otherwise :
        (found : Option PostingRule)
        → Decides (elim found [ some r ↦ ok (some r) | none ↦ tier rules t none ])
    otherwise none = tier-Decides rules t none apart
    otherwise (some r) = ok-Decides _

validate_postable-Decides : (a : Option ChartOfAccount) → Decides (validate_postable a)
unfolding validate_postable
validate_postable-Decides none h = cc
validate_postable-Decides (some a) h = ground arith

tax_account-Decides :
    (accounts : List ChartOfAccount) (key : Option ℕ) → Decides (tax_account accounts key)
tax_account-Decides accounts none = ok-Decides _
tax_account-Decides accounts (some zero) = ok-Decides _
tax_account-Decides accounts (some (suc key)) =
    >>=-Decides (validate_postable _) _ (validate_postable-Decides _) (λ a. ok-Decides _)

or_raise-Decides : {A : Type 0} (o : Option A) → Decides (or_raise o validation_failed)
or_raise-Decides none = err-Decides
or_raise-Decides (some a) = ok-Decides a

rule_accounts-Decides :
    (accounts : List ChartOfAccount) (rule : PostingRule) → Decides (rule_accounts accounts rule)
unfolding rule_accounts
rule_accounts-Decides accounts rule =
    >>=-Decides (validate_postable _) _ (validate_postable-Decides _) (λ debit.
      >>=-Decides (validate_postable _) _ (validate_postable-Decides _) (λ credit.
        >>=-Decides (tax_account accounts rule.tax_account_id) _
          (tax_account-Decides accounts rule.tax_account_id) (λ tax. ok-Decides _)))

legacy_accounts-Decides :
    (accounts : List ChartOfAccount) (t : DocumentType) → Decides (legacy_accounts accounts t)
unfolding legacy_accounts
legacy_accounts-Decides accounts t =
    >>=-Decides (or_raise (default_accounts t) validation_failed) _ (or_raise-Decides _) (λ codes.
      >>=-Decides (validate_postable _) _ (validate_postable-Decides _) (λ debit.
        >>=-Decides (validate_postable _) _ (validate_postable-Decides _) (λ credit. ok-Decides _)))

pub resolve-Decides :
    (b : Books) (t : DocumentType) (fee : Option ℕ)
    → AreApart b.rules
    → resolve b t fee ≢ err (conflict ambiguous_posting_rule)
unfolding resolve
resolve-Decides b t fee apart =
    >>=-Decides (select_rule b.rules t fee) _ (select_rule-Decides b.rules t fee apart) (λ found.
      elim found
        as (λ o. Decides (elim o [
          | none ↦ legacy_accounts b.accounts t
          | some rule ↦ rule_accounts b.accounts rule
        ])) [
          | none ↦ legacy_accounts-Decides b.accounts t
          | some rule ↦ rule_accounts-Decides b.accounts rule
        ])
