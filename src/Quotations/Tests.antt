-- ===== src/Quotations/Tests.antt =====
-- Runs of the workflow.
use lcs_system.Shared.{
  ℕ, ◌≡◌, refl, none, some, [], ◌∷◌, Outcome, ok, err, conflict, duplicate_conversion,
}
use lcs_system.Quotations.{
  RevisionStatus, draft, submitted, converted, Quotation, QuotationRevision, Offers, find_revision,
  revision_with_quotation, submit_revision, convert_first, cancel_revision,
}
use lcs_system.Quotations.Workflow.Reached.{revision_cancelled, here, then, reached-final}
use lcs_system.Quotations.Conversion.{converted_once}

abbrev revision : ℕ → RevisionStatus → QuotationRevision
revision key status = record {
  id = key;
  quotation_id = 1;
  revision_no = key;
  status = status;
  sent_at = none;
  accepted_at = none;
  rejected_at = none;
}

-- A quotation with two drafts.
abbrev offers : Offers
offers = record {
  quotations = record { id = 1; current_revision_no = 4; status = draft } ∷ [];
  revisions = revision 3 draft ∷ revision 4 draft ∷ [];
  conversions = [];
}

abbrev or_offers : Outcome Offers → Offers
or_offers (ok o) = o
or_offers (err _) = offers

abbrev create : Quotation → QuotationRevision → Outcome ℕ
create q r = ok 50

-- The second is submitted and converted; the first is cancelled.
unfoldable sent_off : Offers
unfolding submit_revision revision_with_quotation
sent_off = or_offers (submit_revision 9 4 offers)

is_sent_off : submit_revision 9 4 offers ≡ ok sent_off
unfolding sent_off
is_sent_off = refl

abbrev or_converted : Outcome (ℕ × Offers) → ℕ × Offers
or_converted (ok x) = x
or_converted (err _) = (0, offers)

unfoldable ordered : ℕ × Offers
unfolding convert_first sent_off revision_with_quotation
ordered = or_converted (convert_first create 7 4 none sent_off)

is_ordered : convert_first create 7 4 none sent_off ≡ ok (ordered.0, ordered.1)
unfolding ordered
is_ordered = refl

unfoldable withdrawn : Offers
unfolding cancel_revision ordered
withdrawn = or_offers (cancel_revision 3 ordered.1)

is_withdrawn : cancel_revision 3 ordered.1 ≡ ok withdrawn
unfolding withdrawn
is_withdrawn = refl

unfoldable winner : QuotationRevision
unfolding ordered
winner = record (revision 4 converted) { sent_at = some 9 }

is_winner : find_revision 4 ordered.1.revisions ≡ some winner
unfolding winner
is_winner = refl

reached-final_example :
    (r' : QuotationRevision) × (find_revision 4 withdrawn.revisions ≡ some r')
    × (r'.status ≡ converted)
    × (r'.quotation_id ≡ 1)
unfolding winner
reached-final_example =
    reached-final (then (revision_cancelled 3 is_withdrawn) here) 4 winner is_winner refl

abbrev header : RevisionStatus → Quotation
header status = record { id = 1; current_revision_no = 4; status = status }

is_open :
    revision_with_quotation 4 sent_off
    ≡ ok (header submitted, record (revision 4 submitted) { sent_at = some 9 })
unfolding sent_off
is_open = refl

is_next : revision_with_quotation 3 ordered.1 ≡ ok (header converted, revision 3 draft)
unfolding ordered
is_next = refl

converted_once_example :
    convert_first create 8 3 none ordered.1 ≡ err (conflict duplicate_conversion)
converted_once_example =
    converted_once create create 7 8 4 3 none none sent_off (header submitted) (header converted)
      (record (revision 4 submitted) { sent_at = some 9 }) (revision 3 draft) is_open is_ordered
      is_next refl
