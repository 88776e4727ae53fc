-- ===== src/Quotations/Conversion.antt =====
-- Conversions of a quotation, one after the other.
use lcs_system.Shared.{
  ℕ, ◌==◌, ◌≡◌, refl, sym, ◌∙◌, ap, true, not, Option, some, List, ◌∷◌, Outcome, ok, err,
  or_raise-eq-ok, >>=-eq-ok, raise_if-eq-ok, ok-injective, not_found, invalid_state, conflict,
  duplicate_conversion, first_row, first_row-passes, is_found, Text, eqb→eq, eqb_refl,
}
use lcs_system.Quotations.{
  Quotation, QuotationRevision, QuotationConversion, Offers, find_revision, find_quotation,
  revision_with_quotation, convert_first, converts, clashes, competes,
}
use lcs_system.Quotations.Workflow.{found_by}
use lcs_system.Quotations.Workflow.Calls.{convert_first-Follows}

quotation_of :
    (key : ℕ) (o : Offers) {p : Quotation × QuotationRevision}
    → revision_with_quotation key o ≡ ok p
    → p.0.id ≡ p.1.quotation_id
unfolding revision_with_quotation
quotation_of key o h =
    let (r, _, h₁) = or_raise-eq-ok (find_revision key o.revisions) not_found _ h in
    let (q, found, h₂) =
      or_raise-eq-ok (find_quotation r.quotation_id o.quotations) not_found _ h₁ in
    rw (ok-injective h₂) (
      eqb→eq q.id r.quotation_id
        (first_row-passes (λ x. x.id == r.quotation_id) o.quotations q found))

-- The conversion that a first conversion writes.
written :
    (create : Quotation → QuotationRevision → Outcome ℕ) (user key : ℕ) (k : Option Text)
    (o : Offers) (q : Quotation) (r : QuotationRevision) {order : ℕ} {o' : Offers}
    → revision_with_quotation key o ≡ ok (q, r)
    → convert_first create user key k o ≡ ok (order, o')
    → (c : QuotationConversion) × (c.quotation_revision_id ≡ r.id)
      × (o'.conversions ≡ c ∷ o.conversions)
unfolding convert_first
written create user key k o q r found h =
    let h₀ = rw (found, convert_first) at h in
    let (_, h₂) =
      raise_if-eq-ok (is_found (first_row (converts o.revisions q.id) o.conversions))
        (conflict duplicate_conversion) _ h₀ in
    let (_, h₃) = raise_if-eq-ok (not (competes r.status)) invalid_state _ h₂ in
    let (order, _, h₄) = >>=-eq-ok (create q r) _ h₃ in
    let (_, h₅) =
      raise_if-eq-ok (is_found (first_row (clashes order k) o.conversions))
        (conflict duplicate_conversion) _ h₄ in
    (_, refl, ap (λ (x : ℕ × Offers). x.1.conversions) (ok-injective h₅))

converts_by :
    (rows : List QuotationRevision) (quotation : ℕ) (c : QuotationConversion)
    (m : QuotationRevision)
    → find_revision c.quotation_revision_id rows ≡ some m
    → m.quotation_id ≡ quotation
    → converts rows quotation c ≡ true
converts_by rows quotation c m at h = rw (at, converts) (rw h (eqb_refl quotation))

refuse_again :
    (create : Quotation → QuotationRevision → Outcome ℕ) (user key : ℕ) (k : Option Text)
    (o : Offers) (q : Quotation) (r : QuotationRevision)
    → revision_with_quotation key o ≡ ok (q, r)
    → is_found (first_row (converts o.revisions q.id) o.conversions) ≡ true
    → convert_first create user key k o ≡ err (conflict duplicate_conversion)
unfolding convert_first
refuse_again create user key k o q r found d = rw (found, d) refl

-- Once a revision of a quotation was converted, a conversion of any revision of that quotation that is
-- no replay is refused as a duplicate.
pub converted_once :
    (create create' : Quotation → QuotationRevision → Outcome ℕ) (user user' key key' : ℕ)
    (k k' : Option Text) (o : Offers) (q q' : Quotation) (r r' : QuotationRevision) {order : ℕ}
    {o' : Offers}
    → revision_with_quotation key o ≡ ok (q, r)
    → convert_first create user key k o ≡ ok (order, o')
    → revision_with_quotation key' o' ≡ ok (q', r')
    → q'.id ≡ q.id
    → convert_first create' user' key' k' o' ≡ err (conflict duplicate_conversion)
converted_once create create' user user' key key' k k' o q q' r r' {order} {o'} found h found'
      same =
    let (c, of_r, rows) = written create user key k o q r found h in
    let (m, at, _, place) =
      convert_first-Follows create user key k o h r.id r (found_by key o found) in
    let matches : converts o'.revisions q'.id c ≡ true =
      converts_by o'.revisions q'.id c m (ap (λ (j : ℕ). find_revision j o'.revisions) of_r ∙ at)
        (place ∙ sym (quotation_of key o found) ∙ sym same) in
    let duplicate : is_found (first_row (converts o'.revisions q'.id) o'.conversions) ≡ true =
      rw rows (rw matches refl) in
    refuse_again create' user' key' k' o' q' r' found' duplicate
