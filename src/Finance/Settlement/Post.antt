-- ===== src/Finance/Settlement/Post.antt =====
-- The subledger after a document is posted.
use lcs_system.Shared.{
  ℕ, ◌≡◌, sym, ◌∙◌, some, List, ◌==◌, ◌+ℤ◌, arith, ap, Bool-cases, inl, inr, ◌⊎◌, ok, >>=-eq-ok,
  ok-injective, or_else,
}
use lcs_system.Finance.Models.{
  FinancialDocument, FinancialDocumentAllocation, Books, Request, DocumentStatus,
}
use lcs_system.Finance.Periods.{resolve_period}
use lcs_system.Finance.Ledger.{find_document, rate_or_one, precision_for, convert}
use lcs_system.Finance.Ledger.Rows.{find_document-modify, found_document_by_own_key}
use lcs_system.Finance.Documents.{with_base_amounts, mark_posted, post_draft, post_document}
use lcs_system.Finance.Documents.Inversion.{Posting, post_draft-Posting, post_document-cases}
use lcs_system.Finance.Documents.Soundness.{resolve_period_keeps}
use lcs_system.Finance.Settlement.{is_payment, paid_out, settled}
use lcs_system.Finance.Settlement.Subledger.{IsReconciled, IsSubledger}

-- What the subledger reads of a document.
record IsAlike (d e : FinancialDocument) : Type 0 where
  id : d.id ≡ e.id
  document_type : d.document_type ≡ e.document_type
  total_amount : d.total_amount ≡ e.total_amount
  paid_amount : d.paid_amount ≡ e.paid_amount

with_base_amounts-IsAlike :
    (r : Request) (b : Books) (d : FinancialDocument) {e : FinancialDocument}
    → with_base_amounts r b d ≡ ok e
    → IsAlike d e
unfolding with_base_amounts
with_base_amounts-IsAlike r b d h =
    let (precision, _, h₁) = >>=-eq-ok (precision_for b.currencies d.currency_code) _ h in
    let rate = rate_or_one d.exchange_rate in
    let (_, _, h₂) = >>=-eq-ok (convert d.subtotal_amount rate precision) _ h₁ in
    let (_, _, h₃) = >>=-eq-ok (convert d.discount_amount rate precision) _ h₂ in
    let (_, _, h₄) = >>=-eq-ok (convert d.tax_amount rate precision) _ h₃ in
    let (_, _, h₅) = >>=-eq-ok (convert d.total_amount rate precision) _ h₄ in
    let same = ok-injective h₅ in
    record {
      id = sym (ap (λ (x : FinancialDocument). x.id) same);
      document_type = sym (ap (λ (x : FinancialDocument). x.document_type) same);
      total_amount = sym (ap (λ (x : FinancialDocument). x.total_amount) same);
      paid_amount = sym (ap (λ (x : FinancialDocument). x.paid_amount) same);
    }

IsReconciled-IsAlike :
    (rows : List FinancialDocumentAllocation) (d e : FinancialDocument)
    → IsAlike d e
    → IsReconciled rows d
    → IsReconciled rows e
IsReconciled-IsAlike rows d e a h = record {
  paid = sym a.paid_amount ∙ h.paid ∙ ap (λ (k : ℕ). paid_out k rows +ℤ settled k rows) a.id;
  one_way = λ t.
      ap (λ (k : ℕ). settled k rows) (sym a.id) ∙ h.one_way (ap is_payment a.document_type ∙ t);
  covered = λ le. ground (arith, a.paid_amount, a.total_amount, h.covered);
}

post_draft-IsSubledger :
    (r : Request) (d : FinancialDocument) (b : Books) {b' : Books}
    → find_document d.id b.documents ≡ some d
    → Posting r d b b'
    → IsSubledger b
    → IsSubledger b'
post_draft-IsSubledger r d b found p h =
    let on = or_else d.posting_date d.document_date in
    let (_, _, docs, rows, _) = resolve_period_keeps on b in
    let like = with_base_amounts-IsAlike r (resolve_period on b).1 d p.converted in
    rw p.after (
      rw (docs, rows)
        (record {
          amounts = h.amounts;
          documents = λ j x seen. elim (Bool-cases (j == d.id)) [
            | inl q ↦
                let was : find_document j b.documents ≡ some d = ground (arith, found) in
                let now : x ≡ mark_posted r on p.based = ground (
                  arith,
                  was,
                  find_document-modify d.id (λ _. mark_posted r on p.based) (λ y e. sym like.id) j
                      b.documents,
                ) in
                rw now (
                  IsReconciled-IsAlike b.allocations d _
                    (record {
                      id = like.id;
                      document_type = like.document_type;
                      total_amount = like.total_amount;
                      paid_amount = like.paid_amount;
                    })
                    (h.documents j d was))
            | inr q ↦ h.documents j x (
                ground (
                  arith,
                  find_document-modify d.id (λ _. mark_posted r on p.based) (λ y e. sym like.id) j
                      b.documents,
                ))
          ];
        }))

-- Posting a document keeps the subledger reconciled.
pub post_document-IsSubledger :
    (r : Request) (key : ℕ) (b : Books) {b' : Books}
    → IsSubledger b
    → post_document r key b ≡ ok b'
    → IsSubledger b'
post_document-IsSubledger r key b {b'} h e =
    let (d, found, c) = post_document-cases r key b e in by_case d found c
  where
    by_case :
        (d : FinancialDocument)
        → find_document key b.documents ≡ some d
        → (((d.status ≡ DocumentStatus.posted) × (b' ≡ b))
            ⊎ ((d.status ≡ DocumentStatus.draft) × (post_draft r d b ≡ ok b')))
        → IsSubledger b'
    by_case d found (inl (_, same)) = rw same h
    by_case d found (inr (_, posted)) =
        post_draft-IsSubledger r d b (found_document_by_own_key key b.documents d found)
          (post_draft-Posting r d b posted) h
