-- ===== src/Quotations.antt =====
-- The workflow of quotation revisions in backend/app/modules/quotations/service.py: sending,
-- submitting, accepting, rejecting, cancelling and converting a revision. The JSON that a call
-- answers with, and the reason texts, are left out; the service order that a conversion creates
-- (`create_service_order_from_quotation` of the operations module) is an argument, which gives the
-- order's key or refuses.
pub mod Workflow
pub mod Conversion
pub mod Tests
use lcs_system.Shared.{
  ℕ, ◌==◌, if◌then◌else◌, Bool, true, false, ◌&&◌, ◌||◌, not, Option, none, some, or_else, List, [],
  ◌∷◌, map, Outcome, ok, err, ◌>>=◌, ◌>>◌, raise_if, or_raise, not_found, invalid_state, conflict,
  duplicate_conversion, first_row, is_found, is_key, Text, text_eqb,
}

pub data RevisionStatus : Type 0 where
  draft submitted sent accepted rejected converted superseded cancelled : RevisionStatus

pub record Quotation : Type 0 where
  pub id : ℕ
  pub current_revision_no : ℕ
  pub status : RevisionStatus

pub record QuotationRevision : Type 0 where
  pub id : ℕ
  pub quotation_id : ℕ
  pub revision_no : ℕ
  pub status : RevisionStatus
  pub sent_at : Option ℕ
  pub accepted_at : Option ℕ
  pub rejected_at : Option ℕ

pub record QuotationConversion : Type 0 where
  pub quotation_revision_id : ℕ
  pub service_order_id : ℕ
  pub converted_by_user_id : ℕ
  pub idempotency_key : Option Text

-- The three tables. Primary keys are unique, so that an update of a row by its key is one of all
-- rows with that key.
pub record Offers : Type 0 where
  pub quotations : List Quotation
  pub revisions : List QuotationRevision
  pub conversions : List QuotationConversion

abbrev pub find_revision : ℕ → List QuotationRevision → Option QuotationRevision
find_revision key = first_row (λ r. r.id == key)

abbrev pub find_quotation : ℕ → List Quotation → Option Quotation
find_quotation key = first_row (λ q. q.id == key)

-- `_revision_with_quotation`
unfoldable pub revision_with_quotation : ℕ → Offers → Outcome (Quotation × QuotationRevision)
revision_with_quotation key o = do
  r ← or_raise (find_revision key o.revisions) not_found
  q ← or_raise (find_quotation r.quotation_id o.quotations) not_found
  ok (q, r)

-- The row with a key is written by `g`, the others by `h`.
abbrev pub write :
    ℕ
    → (QuotationRevision → QuotationRevision)
    → (QuotationRevision → QuotationRevision)
    → QuotationRevision
    → QuotationRevision
write key g h r = if r.id == key then g r else h r

abbrev pub unchanged : QuotationRevision → QuotationRevision
unchanged r = r

abbrev head_status : ℕ → RevisionStatus → List Quotation → List Quotation
head_status key s [] = []
head_status key s (q ∷ qs) =
    (if q.id == key then record q { status = s } else q) ∷ head_status key s qs

-- The books of offers after a revision and its quotation take a status.
abbrev pub advance :
    Quotation
    → QuotationRevision
    → RevisionStatus
    → (QuotationRevision → QuotationRevision)
    → (QuotationRevision → QuotationRevision)
    → Offers
    → Offers
advance q r s g h o = record o {
  revisions = map (write r.id g h) o.revisions;
  quotations = head_status q.id s o.quotations;
}

abbrev pub mark_sent : ℕ → QuotationRevision → QuotationRevision
mark_sent now r = record r { status = sent; sent_at = some now }

unfoldable pub send_revision : ℕ → ℕ → Offers → Outcome Offers
send_revision now key o = do
  (q, r) ← revision_with_quotation key o
  elim r.status [
    | sent ↦ ok o
    | draft ↦ ok (advance q r sent (mark_sent now) unchanged o)
    | _ ↦ err invalid_state
  ]

abbrev pub mark_submitted : ℕ → QuotationRevision → QuotationRevision
mark_submitted now r = record r { status = submitted; sent_at = some (or_else r.sent_at now) }

unfoldable pub submit_revision : ℕ → ℕ → Offers → Outcome Offers
submit_revision now key o = do
  (q, r) ← revision_with_quotation key o
  elim r.status [
    | submitted ↦ ok o
    | sent ↦ ok o
    | draft ↦ ok (advance q r submitted (mark_submitted now) unchanged o)
    | _ ↦ err invalid_state
  ]

-- The statuses of `competing_revisions`.
abbrev pub competes : RevisionStatus → Bool
competes sent = true
competes accepted = true
competes submitted = true
competes _ = false

abbrev pub supersede : ℕ → QuotationRevision → QuotationRevision
supersede quotation r =
    if r.quotation_id == quotation && competes r.status then record r { status = superseded } else r

abbrev pub mark_accepted : ℕ → QuotationRevision → QuotationRevision
mark_accepted now r = record r { status = accepted; accepted_at = some now }

unfoldable pub accept_revision : ℕ → ℕ → Offers → Outcome Offers
accept_revision now key o = do
  (q, r) ← revision_with_quotation key o
  elim r.status [
    | accepted ↦ ok o
    | sent ↦ ok (advance q r accepted (mark_accepted now) (supersede q.id) o)
    | _ ↦ err invalid_state
  ]

-- Whether another revision of the quotation is still live.
abbrev is_live : RevisionStatus → Bool
is_live draft = true
is_live s = competes s

abbrev pub other_live : ℕ → ℕ → List QuotationRevision → Bool
other_live quotation key rows =
    is_found
      (first_row (λ r. r.quotation_id == quotation && not (r.id == key) && is_live r.status) rows)

-- A rejected or cancelled revision; the quotation shows it only when nothing else is live.
abbrev pub withdraw :
    Quotation
    → QuotationRevision
    → RevisionStatus
    → (QuotationRevision → QuotationRevision)
    → Offers
    → Offers
withdraw q r s g o = record o {
  revisions = map (write r.id g unchanged) o.revisions;
  quotations =
      if q.current_revision_no == r.revision_no && not (other_live q.id r.id o.revisions)
      then head_status q.id s o.quotations
      else o.quotations;
}

abbrev pub mark_rejected : ℕ → QuotationRevision → QuotationRevision
mark_rejected now r = record r { status = rejected; rejected_at = some now }

unfoldable pub reject_revision : ℕ → ℕ → Offers → Outcome Offers
reject_revision now key o = do
  (q, r) ← revision_with_quotation key o
  let after = withdraw q r rejected (mark_rejected now) o
  elim r.status [
    | rejected ↦ ok o
    | submitted ↦ ok after
    | sent ↦ ok after
    | draft ↦ ok after
    | _ ↦ err invalid_state
  ]

abbrev pub mark_cancelled : QuotationRevision → QuotationRevision
mark_cancelled r = record r { status = cancelled }

unfoldable pub cancel_revision : ℕ → Offers → Outcome Offers
cancel_revision key o = do
  (q, r) ← revision_with_quotation key o
  let after = withdraw q r cancelled mark_cancelled o
  elim r.status [
    | cancelled ↦ ok o
    | submitted ↦ ok after
    | sent ↦ ok after
    | draft ↦ ok after
    | _ ↦ err invalid_state
  ]

-- `if idempotency_key:` and the conversion with that key.
abbrev pub conversion_by_key : Option Text → List QuotationConversion → Option QuotationConversion
conversion_by_key none rows = none
conversion_by_key (some []) rows = none
conversion_by_key (some k) rows =
    first_row (λ c. elim c.idempotency_key [ none ↦ false | some j ↦ text_eqb j k ]) rows

-- The quotation of a conversion, through its revision.
abbrev pub converts : List QuotationRevision → ℕ → QuotationConversion → Bool
converts revisions quotation c = elim (find_revision c.quotation_revision_id revisions) [
  | none ↦ false
  | some r ↦ r.quotation_id == quotation
]

abbrev pub mark_converted : QuotationRevision → QuotationRevision
mark_converted r = record r { status = converted }

-- The unique constraints on the order and on the key, at the commit. In a sequence of calls a key
-- that is not empty is found before, so that a clash is a duplicate.
abbrev same_text : Option Text → Option Text → Bool
same_text (some a) (some b) = text_eqb a b
same_text _ _ = false

abbrev pub clashes : ℕ → Option Text → QuotationConversion → Bool
clashes order key c = c.service_order_id == order || same_text c.idempotency_key key

abbrev pub convert :
    ℕ → Option Text → Outcome ℕ → Quotation → QuotationRevision → Offers → Outcome (ℕ × Offers)
convert user key order q r o = do
  service_order ← order
  raise_if (is_found (first_row (clashes service_order key) o.conversions))
      (conflict duplicate_conversion)
  let o' = advance q r converted mark_converted unchanged o
  ok (
    service_order,
    record o' {
      conversions =
          record {
            quotation_revision_id = r.id;
            service_order_id = service_order;
            converted_by_user_id = user;
            idempotency_key = key;
          }
          ∷ o.conversions;
    },
  )

-- The first conversion of a quotation, from a revision that was submitted, sent or accepted.
unfoldable pub convert_first :
    (Quotation → QuotationRevision → Outcome ℕ)
    → ℕ
    → ℕ
    → Option Text
    → Offers
    → Outcome (ℕ × Offers)
convert_first create user key k o = do
  (q, r) ← revision_with_quotation key o
  raise_if (is_found (first_row (converts o.revisions q.id) o.conversions))
      (conflict duplicate_conversion)
  raise_if (not (competes r.status)) invalid_state
  convert user k (create q r) q r o

-- The key of the service order, and the tables after the call. A call whose key was used before
-- answers with the order of the first one.
unfoldable pub convert_revision :
    (Quotation → QuotationRevision → Outcome ℕ)
    → ℕ
    → ℕ
    → Option Text
    → Offers
    → Outcome (ℕ × Offers)
unfolding convert_first
convert_revision create user key k o = elim (conversion_by_key k o.conversions) [
  | some c ↦ do _ ← revision_with_quotation c.quotation_revision_id o; ok (c.service_order_id, o)
  | none ↦ convert_first create user key k o
]
