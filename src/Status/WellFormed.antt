-- ===== src/Status/WellFormed.antt =====
-- What the table of policies leads to.
use lcs_system.Shared.{
  ◌≡◌, refl, Bool, true, false, ◌&&◌, not, some, List, [], ◌∷◌, first_row, is_found, Text, text_eqb,
  text_eqb→eq, subst, Bool-cases, inl, inr, some-eq, arith, sym, or_else,
}
use lcs_system.Status.{
  StatusTransition, StatusPolicy, normalize, same_status, get, transitions_from, transition,
  canonical,
}
use lcs_system.Status.Policies.{Policies, status_policies}

-- A transition from a status leads to a declared one that is another.
abbrev leads_on : StatusPolicy → Text → StatusTransition → Bool
leads_on p from t = is_found (canonical p t.to) && not (text_eqb (normalize t.to) from)

abbrev all_lead_on : StatusPolicy → Text → List StatusTransition → Bool
all_lead_on p from [] = true
all_lead_on p from (t ∷ ts) = leads_on p from t && all_lead_on p from ts

abbrev each_leads_on : StatusPolicy → List (Text × List StatusTransition) → Bool
each_leads_on p [] = true
each_leads_on p ((from, ts) ∷ rest) = all_lead_on p from ts && each_leads_on p rest

abbrev policies_lead_on : Policies → Bool
policies_lead_on [] = true
policies_lead_on ((c, p) ∷ rest) = each_leads_on p p.transitions && policies_lead_on rest

table_leads_on : policies_lead_on status_policies ≡ true
unfolding status_policies canonical
table_leads_on = refl

&&-true : (a b : Bool) → (a && b) ≡ true → (a ≡ true) × (b ≡ true)
&&-true true b h = (refl, h)
&&-true false b h = cc

found_leads_on :
    (p : StatusPolicy) (from to : Text) (ts : List StatusTransition) {t : StatusTransition}
    → all_lead_on p from ts ≡ true
    → first_row (λ i. same_status (StatusTransition.to i) to) ts ≡ some t
    → leads_on p from t ≡ true
found_leads_on p from to [] h e = cc
found_leads_on p from to (i ∷ ts) {t} h e = elim (Bool-cases (same_status i.to to)) [
  | inl same ↦ rw (sym (some-eq (rw same at e))) (&&-true (leads_on p from i) _ h).0
  | inr apart ↦ found_leads_on p from to ts (&&-true (leads_on p from i) _ h).1 (rw apart at e)
]

from_leads_on :
    (p : StatusPolicy) (key : Text) (d : List (Text × List StatusTransition))
    → each_leads_on p d ≡ true
    → all_lead_on p key (or_else (get key d) []) ≡ true
from_leads_on p key [] h = refl
from_leads_on p key ((k, ts) ∷ d) h =
    let (here, rest) = &&-true (all_lead_on p k ts) _ h in
    elim (Bool-cases (text_eqb k key)) [
      | inl same ↦
          rw same
            (subst (λ (from : Text). all_lead_on p from ts ≡ true) (text_eqb→eq k key same) here)
      | inr apart ↦ rw apart (from_leads_on p key d rest)
    ]

policy_leads_on :
    (collection : Text) (d : Policies) {p : StatusPolicy}
    → policies_lead_on d ≡ true
    → get collection d ≡ some p
    → each_leads_on p p.transitions ≡ true
policy_leads_on collection [] h e = cc
policy_leads_on collection ((c, q) ∷ d) {p} h e =
    let (here, rest) = &&-true (each_leads_on q q.transitions) _ h in
    elim (Bool-cases (text_eqb c collection)) [
      | inl same ↦ rw (sym (some-eq (rw same at e))) here
      | inr apart ↦ policy_leads_on collection d rest (rw apart at e)
    ]

-- In every policy of the table, a transition leads to a status that the policy declares and that is
-- not the one it starts from.
pub transition-leads_on :
    (collection : Text) (p : StatusPolicy) (from to : Text) (t : StatusTransition)
    → get collection status_policies ≡ some p
    → transition p from to ≡ some t
    → (is_found (canonical p t.to) ≡ true) × (same_status t.to from ≡ false)
unfolding transition
transition-leads_on collection p from to t known found =
    let all =
      from_leads_on p (normalize from) p.transitions
        (policy_leads_on collection status_policies table_leads_on known) in
    let (declared, apart) =
      &&-true (is_found (canonical p t.to)) _
        (found_leads_on p (normalize from) to (transitions_from p from) all found) in
    (declared, not-true apart)
  where
    not-true : {c : Bool} → not c ≡ true → c ≡ false
    not-true h = ground arith
