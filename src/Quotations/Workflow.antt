-- ===== src/Quotations/Workflow.antt =====
-- The edges between the statuses of a revision.
pub mod Calls
pub mod Reached
use lcs_system.Shared.{
  ℕ, ◌==◌, ◌≡◌, refl, sym, ◌∙◌, ap, Bool, true, false, not, ◌||◌, ◌&&◌, Option, none, some, List,
  [], ◌∷◌, map, Outcome, ok, err, or_raise-eq-ok, >>=-eq-ok, raise_if-eq-ok, ok-injective, or_raise,
  not_found, invalid_state, conflict, duplicate_conversion, first_row, first_row-passes, is_found,
  Text, arith, Bool-cases, Option-cases, inl, inr, ◌⊎◌, eqb→eq, some-eq, if◌then◌else◌,
}
use lcs_system.Quotations.{
  advance, withdraw, convert, unchanged, clashes, RevisionStatus, draft, submitted, sent, accepted,
  rejected, converted, superseded, cancelled, Quotation, QuotationRevision, Offers, find_revision,
  find_quotation, revision_with_quotation, write, supersede, competes, mark_sent, mark_submitted,
  mark_accepted, mark_rejected, mark_cancelled, mark_converted, send_revision, submit_revision,
  accept_revision, reject_revision, cancel_revision, convert_revision, convert_first,
  conversion_by_key, converts,
}

-- The edges of the workflow, and staying.
abbrev pub leads : RevisionStatus → RevisionStatus → Bool
leads draft draft = true
leads draft sent = true
leads draft submitted = true
leads draft rejected = true
leads draft cancelled = true
leads submitted submitted = true
leads submitted rejected = true
leads submitted cancelled = true
leads submitted converted = true
leads submitted superseded = true
leads sent sent = true
leads sent accepted = true
leads sent rejected = true
leads sent cancelled = true
leads sent converted = true
leads sent superseded = true
leads accepted accepted = true
leads accepted converted = true
leads accepted superseded = true
leads rejected rejected = true
leads converted converted = true
leads superseded superseded = true
leads cancelled cancelled = true
leads _ _ = false

leads_itself : (s : RevisionStatus) → leads s s ≡ true
leads_itself draft = refl
leads_itself submitted = refl
leads_itself sent = refl
leads_itself accepted = refl
leads_itself rejected = refl
leads_itself converted = refl
leads_itself superseded = refl
leads_itself cancelled = refl

-- A revision that is found stays under its key and in its quotation, and its status takes at most one
-- edge.
abbrev pub Follows : List QuotationRevision → List QuotationRevision → Type 0
Follows before after =
    (j : ℕ) (r : QuotationRevision)
    → find_revision j before ≡ some r
    → (r' : QuotationRevision) × (find_revision j after ≡ some r')
      × (leads r.status r'.status ≡ true)
      × (r'.quotation_id ≡ r.quotation_id)

pub same-Follows : (rs : List QuotationRevision) → Follows rs rs
same-Follows rs j r found = (r, found, leads_itself r.status, refl)

find_revision-map :
    (f : QuotationRevision → QuotationRevision)
    → ((r : QuotationRevision) → (f r).id ≡ r.id)
    → (j : ℕ) (rs : List QuotationRevision) (r : QuotationRevision) → find_revision j rs ≡ some r
    → find_revision j (map f rs) ≡ some (f r)
find_revision-map f keeps j [] r found = cc
find_revision-map f keeps j (x ∷ rs) r found = elim (Bool-cases (x.id == j)) [
  | inl p ↦
      let same : x ≡ r = some-eq (rw p at found) in
      simp (keeps x, p) (ap (λ (y : QuotationRevision). some (f y)) same)
  | inr p ↦ simp (keeps x, p) (find_revision-map f keeps j rs r (rw p at found))
]

-- One row is written along an edge, the others keep their status or are superseded.
pub write-Follows :
    (key : ℕ) (g h : QuotationRevision → QuotationRevision) (r : QuotationRevision)
    (rs : List QuotationRevision)
    → find_revision key rs ≡ some r
    → ((x : QuotationRevision) → ((g x).id ≡ x.id) × ((g x).quotation_id ≡ x.quotation_id))
    → ((x : QuotationRevision)
        → ((h x).id ≡ x.id)
          × ((h x).quotation_id ≡ x.quotation_id)
          × (leads x.status (h x).status ≡ true))
    → leads r.status (g r).status ≡ true
    → Follows rs (map (write key g h) rs)
write-Follows key g h r rs found gk hk edge j x seen =
    (write key g h x, find_revision-map (write key g h) keeps j rs x seen, edge_of, place_of)
  where
    own : x.id ≡ j
    own = eqb→eq x.id j (first_row-passes (λ y. y.id == j) rs x seen)

    keeps : (y : QuotationRevision) → (write key g h y).id ≡ y.id
    keeps y = elim (Bool-cases (y.id == key)) [ inl p ↦ rw p (gk y).0 | inr p ↦ rw p (hk y).0 ]

    edge_of : leads x.status (write key g h x).status ≡ true
    edge_of = elim (Bool-cases (x.id == key)) [
      | inl p ↦
          let at : key ≡ j = sym (eqb→eq x.id key p) ∙ own in
          let same : r ≡ x = some-eq (sym found ∙ (ap (λ (k : ℕ). find_revision k rs) at ∙ seen)) in
          rw p (rw (sym same) edge)
      | inr p ↦ rw p (hk x).2
    ]

    place_of : (write key g h x).quotation_id ≡ x.quotation_id
    place_of = elim (Bool-cases (x.id == key)) [ inl p ↦ rw p (gk x).1 | inr p ↦ rw p (hk x).1 ]

pub supersede-leads :
    (quotation : ℕ) (x : QuotationRevision)
    → ((supersede quotation x).id ≡ x.id)
      × ((supersede quotation x).quotation_id ≡ x.quotation_id)
      × (leads x.status (supersede quotation x).status ≡ true)
supersede-leads quotation x = elim (Bool-cases (x.quotation_id == quotation && competes x.status)) [
  | inl p ↦ rw p (refl, refl, to_superseded x.status (ground arith))
  | inr p ↦ rw p (refl, refl, leads_itself x.status)
]
  where
    to_superseded : (s : RevisionStatus) → competes s ≡ true → leads s superseded ≡ true
    to_superseded s h = ground arith

pub unchanged-leads :
    (x : QuotationRevision)
    → (x.id ≡ x.id) × (x.quotation_id ≡ x.quotation_id) × (leads x.status x.status ≡ true)
unchanged-leads x = (refl, refl, leads_itself x.status)

-- The revision that a call works on.
pub found_by :
    (key : ℕ) (o : Offers) {p : Quotation × QuotationRevision}
    → revision_with_quotation key o ≡ ok p
    → find_revision p.1.id o.revisions ≡ some p.1
unfolding revision_with_quotation
found_by key o {p} h =
    let (r, found, h₁) = or_raise-eq-ok (find_revision key o.revisions) not_found _ h in
    let (q, _, h₂) = or_raise-eq-ok (find_quotation r.quotation_id o.quotations) not_found _ h₁ in
    let own = eqb→eq r.id key (first_row-passes (λ y. y.id == key) o.revisions r found) in
    rw (ok-injective h₂) (simp own found)
