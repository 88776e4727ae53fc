-- ===== src/Quotations/Workflow/Reached.antt =====
-- Revisions after any sequence of calls of the workflow.
use lcs_system.Shared.{ℕ, ◌≡◌, refl, ◌∙◌, Bool, true, false, Option, some, Outcome, ok, Text, arith}
use lcs_system.Quotations.{
  RevisionStatus, rejected, converted, superseded, cancelled, Quotation, QuotationRevision, Offers,
  find_revision, send_revision, submit_revision, accept_revision, reject_revision, cancel_revision,
  convert_revision,
}
use lcs_system.Quotations.Workflow.{leads, Follows}
use lcs_system.Quotations.Workflow.Calls.{
  send_revision-Follows, submit_revision-Follows, accept_revision-Follows, reject_revision-Follows,
  cancel_revision-Follows, convert_revision-Follows,
}

infix 5 ◌⟶◌ ◌⟶*◌
-- One call that goes through.
pub data ◌⟶◌ : Offers → Offers → Type 0 where
  revision_sent : {o o' : Offers} (now key : ℕ) → send_revision now key o ≡ ok o' → o ⟶ o'
  revision_submitted : {o o' : Offers} (now key : ℕ) → submit_revision now key o ≡ ok o' → o ⟶ o'
  revision_accepted : {o o' : Offers} (now key : ℕ) → accept_revision now key o ≡ ok o' → o ⟶ o'
  revision_rejected : {o o' : Offers} (now key : ℕ) → reject_revision now key o ≡ ok o' → o ⟶ o'
  revision_cancelled : {o o' : Offers} (key : ℕ) → cancel_revision key o ≡ ok o' → o ⟶ o'
  revision_converted :
      {o o' : Offers} (create : Quotation → QuotationRevision → Outcome ℕ) (user key : ℕ)
      (k : Option Text) (order : ℕ)
      → convert_revision create user key k o ≡ ok (order, o')
      → o ⟶ o'

pub data ◌⟶*◌ : Offers → Offers → Type 0 where
  here : {o : Offers} → o ⟶* o
  then : {a b c : Offers} → a ⟶ b → b ⟶* c → a ⟶* c

step-Follows : {o o' : Offers} → o ⟶ o' → Follows o.revisions o'.revisions
step-Follows {o} (revision_sent now key e) = send_revision-Follows now key o e
step-Follows {o} (revision_submitted now key e) = submit_revision-Follows now key o e
step-Follows {o} (revision_accepted now key e) = accept_revision-Follows now key o e
step-Follows {o} (revision_rejected now key e) = reject_revision-Follows now key o e
step-Follows {o} (revision_cancelled key e) = cancel_revision-Follows key o e
step-Follows {o} (revision_converted create user key k order e) =
    convert_revision-Follows create user key k o e

-- A status that no edge leaves.
abbrev pub is_final : RevisionStatus → Bool
is_final rejected = true
is_final converted = true
is_final superseded = true
is_final cancelled = true
is_final _ = false

final_stays : (s t : RevisionStatus) → is_final s ≡ true → leads s t ≡ true → t ≡ s
final_stays s t f l = ground arith

-- Whatever calls of the workflow are made, a revision that was rejected, converted, superseded or
-- cancelled keeps that status, and stays in its quotation.
pub reached-final :
    {a b : Offers}
    → a ⟶* b
    → (key : ℕ) (r : QuotationRevision) → find_revision key a.revisions ≡ some r
    → is_final r.status ≡ true
    → (r' : QuotationRevision) × (find_revision key b.revisions ≡ some r')
      × (r'.status ≡ r.status)
      × (r'.quotation_id ≡ r.quotation_id)
reached-final here key r found final = (r, found, refl, refl)
reached-final (then s rest) key r found final =
    let (m, at, edge, place) = step-Follows s key r found in
    let same = final_stays r.status m.status final edge in
    let (r', end, status, quotation) = reached-final rest key m at (rw same final) in
    (r', end, status ∙ same, quotation ∙ place)
