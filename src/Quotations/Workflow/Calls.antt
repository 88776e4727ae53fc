-- ===== src/Quotations/Workflow/Calls.antt =====
-- The calls of the workflow and its edges.
use lcs_system.Shared.{
  ℕ, ◌≡◌, refl, true, false, arith, not, Option, some, Outcome, ok, err, >>=-eq-ok, raise_if-eq-ok,
  ok-injective, invalid_state, conflict, duplicate_conversion, first_row, is_found, Text,
  Option-cases, inl, inr, ap,
}
use lcs_system.Quotations.{
  advance, withdraw, unchanged, clashes, RevisionStatus, draft, submitted, sent, accepted, rejected,
  converted, superseded, cancelled, Quotation, QuotationRevision, Offers, find_revision,
  revision_with_quotation, supersede, competes, mark_sent, mark_submitted, mark_accepted,
  mark_rejected, mark_cancelled, mark_converted, send_revision, submit_revision, accept_revision,
  reject_revision, cancel_revision, convert_revision, convert_first, conversion_by_key, converts,
}
use lcs_system.Quotations.Workflow.{
  leads, Follows, same-Follows, write-Follows, supersede-leads, unchanged-leads, found_by,
}

pub send_revision-Follows :
    (now : ℕ) (key : ℕ) (o : Offers) {o' : Offers}
    → send_revision now key o ≡ ok o'
    → Follows o.revisions o'.revisions
unfolding send_revision
send_revision-Follows now key o {o'} h =
    let (p, found, h₁) = >>=-eq-ok (revision_with_quotation key o) _ h in
    by_status p.0 p.1 (found_by key o found) p.1.status refl h₁
  where
    by_status :
        (q : Quotation) (r : QuotationRevision)
        → find_revision r.id o.revisions ≡ some r
        → (s : RevisionStatus) → r.status ≡ s
        → (elim s [
          | sent ↦ ok o
          | draft ↦ ok (advance q r sent (mark_sent now) unchanged o)
          | _ ↦ err invalid_state
        ])
          ≡ ok o'
        → Follows o.revisions o'.revisions
    by_status q r found draft e h' = rw (ok-injective h') (
        write-Follows r.id (mark_sent now) unchanged r o.revisions found (λ x. (refl, refl))
          unchanged-leads (rw e refl))
    by_status q r found submitted e h' = cc
    by_status q r found sent e h' = rw (ok-injective h') (same-Follows o.revisions)
    by_status q r found accepted e h' = cc
    by_status q r found rejected e h' = cc
    by_status q r found converted e h' = cc
    by_status q r found superseded e h' = cc
    by_status q r found cancelled e h' = cc

pub submit_revision-Follows :
    (now : ℕ) (key : ℕ) (o : Offers) {o' : Offers}
    → submit_revision now key o ≡ ok o'
    → Follows o.revisions o'.revisions
unfolding submit_revision
submit_revision-Follows now key o {o'} h =
    let (p, found, h₁) = >>=-eq-ok (revision_with_quotation key o) _ h in
    by_status p.0 p.1 (found_by key o found) p.1.status refl h₁
  where
    by_status :
        (q : Quotation) (r : QuotationRevision)
        → find_revision r.id o.revisions ≡ some r
        → (s : RevisionStatus) → r.status ≡ s
        → (elim s [
          | submitted ↦ ok o
          | sent ↦ ok o
          | draft ↦ ok (advance q r submitted (mark_submitted now) unchanged o)
          | _ ↦ err invalid_state
        ])
          ≡ ok o'
        → Follows o.revisions o'.revisions
    by_status q r found draft e h' = rw (ok-injective h') (
        write-Follows r.id (mark_submitted now) unchanged r o.revisions found (λ x. (refl, refl))
          unchanged-leads (rw e refl))
    by_status q r found submitted e h' = rw (ok-injective h') (same-Follows o.revisions)
    by_status q r found sent e h' = rw (ok-injective h') (same-Follows o.revisions)
    by_status q r found accepted e h' = cc
    by_status q r found rejected e h' = cc
    by_status q r found converted e h' = cc
    by_status q r found superseded e h' = cc
    by_status q r found cancelled e h' = cc

pub accept_revision-Follows :
    (now : ℕ) (key : ℕ) (o : Offers) {o' : Offers}
    → accept_revision now key o ≡ ok o'
    → Follows o.revisions o'.revisions
unfolding accept_revision
accept_revision-Follows now key o {o'} h =
    let (p, found, h₁) = >>=-eq-ok (revision_with_quotation key o) _ h in
    by_status p.0 p.1 (found_by key o found) p.1.status refl h₁
  where
    by_status :
        (q : Quotation) (r : QuotationRevision)
        → find_revision r.id o.revisions ≡ some r
        → (s : RevisionStatus) → r.status ≡ s
        → (elim s [
          | accepted ↦ ok o
          | sent ↦ ok (advance q r accepted (mark_accepted now) (supersede q.id) o)
          | _ ↦ err invalid_state
        ])
          ≡ ok o'
        → Follows o.revisions o'.revisions
    by_status q r found draft e h' = cc
    by_status q r found submitted e h' = cc
    by_status q r found sent e h' = rw (ok-injective h') (
        write-Follows r.id (mark_accepted now) (supersede q.id) r o.revisions found
          (λ x. (refl, refl)) (supersede-leads q.id) (rw e refl))
    by_status q r found accepted e h' = rw (ok-injective h') (same-Follows o.revisions)
    by_status q r found rejected e h' = cc
    by_status q r found converted e h' = cc
    by_status q r found superseded e h' = cc
    by_status q r found cancelled e h' = cc

pub reject_revision-Follows :
    (now : ℕ) (key : ℕ) (o : Offers) {o' : Offers}
    → reject_revision now key o ≡ ok o'
    → Follows o.revisions o'.revisions
unfolding reject_revision
reject_revision-Follows now key o {o'} h =
    let (p, found, h₁) = >>=-eq-ok (revision_with_quotation key o) _ h in
    by_status p.0 p.1 (found_by key o found) p.1.status refl h₁
  where
    by_status :
        (q : Quotation) (r : QuotationRevision)
        → find_revision r.id o.revisions ≡ some r
        → (s : RevisionStatus) → r.status ≡ s
        → (elim s [
          | rejected ↦ ok o
          | submitted ↦ ok (withdraw q r rejected (mark_rejected now) o)
          | sent ↦ ok (withdraw q r rejected (mark_rejected now) o)
          | draft ↦ ok (withdraw q r rejected (mark_rejected now) o)
          | _ ↦ err invalid_state
        ])
          ≡ ok o'
        → Follows o.revisions o'.revisions
    by_status q r found draft e h' = rw (ok-injective h') (
        write-Follows r.id (mark_rejected now) unchanged r o.revisions found (λ x. (refl, refl))
          unchanged-leads (rw e refl))
    by_status q r found submitted e h' = rw (ok-injective h') (
        write-Follows r.id (mark_rejected now) unchanged r o.revisions found (λ x. (refl, refl))
          unchanged-leads (rw e refl))
    by_status q r found sent e h' = rw (ok-injective h') (
        write-Follows r.id (mark_rejected now) unchanged r o.revisions found (λ x. (refl, refl))
          unchanged-leads (rw e refl))
    by_status q r found accepted e h' = cc
    by_status q r found rejected e h' = rw (ok-injective h') (same-Follows o.revisions)
    by_status q r found converted e h' = cc
    by_status q r found superseded e h' = cc
    by_status q r found cancelled e h' = cc

pub cancel_revision-Follows :
    (key : ℕ) (o : Offers) {o' : Offers}
    → cancel_revision key o ≡ ok o'
    → Follows o.revisions o'.revisions
unfolding cancel_revision
cancel_revision-Follows key o {o'} h =
    let (p, found, h₁) = >>=-eq-ok (revision_with_quotation key o) _ h in
    by_status p.0 p.1 (found_by key o found) p.1.status refl h₁
  where
    by_status :
        (q : Quotation) (r : QuotationRevision)
        → find_revision r.id o.revisions ≡ some r
        → (s : RevisionStatus) → r.status ≡ s
        → (elim s [
          | cancelled ↦ ok o
          | submitted ↦ ok (withdraw q r cancelled mark_cancelled o)
          | sent ↦ ok (withdraw q r cancelled mark_cancelled o)
          | draft ↦ ok (withdraw q r cancelled mark_cancelled o)
          | _ ↦ err invalid_state
        ])
          ≡ ok o'
        → Follows o.revisions o'.revisions
    by_status q r found draft e h' = rw (ok-injective h') (
        write-Follows r.id mark_cancelled unchanged r o.revisions found (λ x. (refl, refl))
          unchanged-leads (rw e refl))
    by_status q r found submitted e h' = rw (ok-injective h') (
        write-Follows r.id mark_cancelled unchanged r o.revisions found (λ x. (refl, refl))
          unchanged-leads (rw e refl))
    by_status q r found sent e h' = rw (ok-injective h') (
        write-Follows r.id mark_cancelled unchanged r o.revisions found (λ x. (refl, refl))
          unchanged-leads (rw e refl))
    by_status q r found accepted e h' = cc
    by_status q r found rejected e h' = cc
    by_status q r found converted e h' = cc
    by_status q r found superseded e h' = cc
    by_status q r found cancelled e h' = rw (ok-injective h') (same-Follows o.revisions)

to_converted : (s : RevisionStatus) → not (competes s) ≡ false → leads s converted ≡ true
to_converted s h = ground arith

pub convert_first-Follows :
    (create : Quotation → QuotationRevision → Outcome ℕ) (user key : ℕ) (k : Option Text)
    (o : Offers) {order : ℕ} {o' : Offers}
    → convert_first create user key k o ≡ ok (order, o')
    → Follows o.revisions o'.revisions
unfolding convert_first
convert_first-Follows create user key k o h =
    let (p, found, h₁) = >>=-eq-ok (revision_with_quotation key o) _ h in
    let (_, h₂) =
      raise_if-eq-ok (is_found (first_row (converts o.revisions p.0.id) o.conversions))
        (conflict duplicate_conversion) _ h₁ in
    let (live, h₃) = raise_if-eq-ok (not (competes p.1.status)) invalid_state _ h₂ in
    let (order, _, h₄) = >>=-eq-ok (create p.0 p.1) _ h₃ in
    let (_, h₅) =
      raise_if-eq-ok (is_found (first_row (clashes order k) o.conversions))
        (conflict duplicate_conversion) _ h₄ in
    let after = ap (λ (x : ℕ × Offers). x.1) (ok-injective h₅) in
    rw after (
      write-Follows p.1.id mark_converted unchanged p.1 o.revisions (found_by key o found)
        (λ x. (refl, refl)) unchanged-leads (to_converted p.1.status live))

pub convert_revision-Follows :
    (create : Quotation → QuotationRevision → Outcome ℕ) (user key : ℕ) (k : Option Text)
    (o : Offers) {order : ℕ} {o' : Offers}
    → convert_revision create user key k o ≡ ok (order, o')
    → Follows o.revisions o'.revisions
unfolding convert_revision
convert_revision-Follows create user key k o {order} {o'} h =
    elim (Option-cases (conversion_by_key k o.conversions)) [
      | inl fresh ↦ convert_first-Follows create user key k o (rw (fresh, convert_revision) at h)
      | inr (c, seen) ↦
          let (_, _, h₁) =
            >>=-eq-ok (revision_with_quotation c.quotation_revision_id o) _
              (rw (seen, convert_revision) at h) in
          rw (ap (λ (x : ℕ × Offers). x.1) (ok-injective h₁)) (same-Follows o.revisions)
    ]
