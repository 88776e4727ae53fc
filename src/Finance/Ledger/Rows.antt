-- ===== src/Finance/Ledger/Rows.antt =====
-- Rows found after rows are changed.
use lcs_system.Shared.{
  ℕ, ◌==◌, if◌then◌else◌, Option, none, some, List, [], ◌∷◌, ◌≡◌, refl, arith, All, where_rows, not,
  Bool-cases, eqb→eq, first_row-passes, inl, inr,
}
use lcs_system.Finance.Models.{FinancialDocument, JournalEntry}
use lcs_system.Finance.Ledger.{find_document, find_entry, modify_document, modify_entry}

abbrev pub map_found {ℓ κ} : {A : Type ℓ} {B : Type κ} → (A → B) → Option A → Option B
map_found f none = none
map_found f (some a) = some (f a)

-- A search after the row with a key is changed, by a change that keeps the key.
pub find_document-modify :
    (key : ℕ) (f : FinancialDocument → FinancialDocument)
    → ((d : FinancialDocument) → d.id ≡ key → (f d).id ≡ key)
    → (j : ℕ) (docs : List FinancialDocument)
    → find_document j (modify_document key f docs)
      ≡ (if j == key then map_found f (find_document j docs) else find_document j docs)
unfolding modify_document
find_document-modify key f keeps j [] = ground arith
find_document-modify key f keeps j (d ∷ docs) =
    ground (arith, keeps d, find_document-modify key f keeps j docs)

pub find_entry-modify :
    (key : ℕ) (f : JournalEntry → JournalEntry)
    → ((e : JournalEntry) → e.id ≡ key → (f e).id ≡ key)
    → (j : ℕ) (es : List JournalEntry)
    → find_entry j (modify_entry key f es)
      ≡ (if j == key then map_found f (find_entry j es) else find_entry j es)
unfolding modify_entry
find_entry-modify key f keeps j [] = ground arith
find_entry-modify key f keeps j (e ∷ es) =
    ground (arith, keeps e, find_entry-modify key f keeps j es)

-- A property of every entry survives a change of the row that a search finds, if it keeps it there.
pub All-modify_entry {ℓ} :
    (P : JournalEntry → Type ℓ) (key : ℕ) (f : JournalEntry → JournalEntry) (es : List JournalEntry)
    → ((e : JournalEntry) → find_entry key es ≡ some e → P e → P (f e))
    → All P es
    → All P (modify_entry key f es)
unfolding modify_entry
All-modify_entry P key f [] keeps h = h
All-modify_entry P key f (e ∷ es) keeps h = elim (Bool-cases (e.id == key)) [
  | inl p ↦ rw p (keeps e (rw p refl) h.0, h.1)
  | inr p ↦ rw p (h.0, All-modify_entry P key f es (λ x found. keeps x (rw p found)) h.1)
]

-- A row that a search finds is the one that its own key finds.
pub found_by_own_key :
    (key : ℕ) (es : List JournalEntry) (e : JournalEntry)
    → find_entry key es ≡ some e
    → find_entry e.id es ≡ some e
found_by_own_key key es e found =
    simp (eqb→eq e.id key (first_row-passes (λ x. x.id == key) es e found)) found

-- A search by one key after the rows of another are deleted.
pub find_entry-delete :
    (key j : ℕ) (es : List JournalEntry)
    → find_entry j (where_rows (λ e. not (e.id == key)) es)
      ≡ (if j == key then none else find_entry j es)
find_entry-delete key j [] = ground arith
find_entry-delete key j (e ∷ es) = ground (arith, find_entry-delete key j es)

pub document_key :
    (key : ℕ) (docs : List FinancialDocument) (d : FinancialDocument)
    → find_document key docs ≡ some d
    → d.id ≡ key
document_key key docs d found = eqb→eq d.id key (first_row-passes (λ x. x.id == key) docs d found)

pub found_document_by_own_key :
    (key : ℕ) (docs : List FinancialDocument) (d : FinancialDocument)
    → find_document key docs ≡ some d
    → find_document d.id docs ≡ some d
found_document_by_own_key key docs d found = simp (document_key key docs d found) found
