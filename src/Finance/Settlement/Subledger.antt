-- ===== src/Finance/Settlement/Subledger.antt =====
-- The subledger: what each document has been paid is what its allocations say.
use lcs_system.Shared.{
  ℕ, ◌≡◌, true, ◌&&◌, if◌then◌else◌, some, List, [], ◌∷◌, ◌==◌, ℤ, pos, ◌+ℤ◌, ◌≤ℤ◌, All,
}
use lcs_system.Finance.Models.{FinancialDocument, FinancialDocumentAllocation, Books}
use lcs_system.Finance.Ledger.{find_document}
use lcs_system.Finance.Documents.{touches, other_side}
use lcs_system.Finance.Settlement.{is_payment, paid_out, settled}

-- The paid amount of a document is the sum of its allocations, on either side; nothing is allocated
-- against a payment; and no document is paid more than its total.
pub record IsReconciled (rows : List FinancialDocumentAllocation) (d : FinancialDocument)
    : Type 0 where
  pub paid : d.paid_amount ≡ paid_out d.id rows +ℤ settled d.id rows
  pub one_way : is_payment d.document_type ≡ true → settled d.id rows ≡ pos 0
  pub covered : (pos 0 ≤ℤ d.total_amount → d.paid_amount ≤ℤ d.total_amount)

-- Every allocation is of a positive amount, and every document that a search finds is reconciled.
pub record IsSubledger (b : Books) : Type 0 where
  pub amounts : All (λ a. pos 1 ≤ℤ FinancialDocumentAllocation.allocated_amount a) b.allocations
  pub documents :
      (j : ℕ) (d : FinancialDocument)
      → find_document j b.documents ≡ some d
      → IsReconciled b.allocations d

-- What of a document's allocations goes when those of another document go.
unfoldable pub shared : ℕ → ℕ → List FinancialDocumentAllocation → ℤ
shared key j [] = pos 0
shared key j (a ∷ rest) =
    (if touches key a && other_side key a == j then a.allocated_amount else pos 0)
    +ℤ shared key j rest
