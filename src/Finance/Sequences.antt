-- ===== src/Finance/Sequences.antt =====
-- backend/app/core/sequences.py: document numbers, allocated one by one for each type and year.
use lcs_system.Shared.{
  ℕ, zero, suc, ◌+◌, ◌-◌, ◌/◌, ◌%◌, ◌==◌, ltb, if◌then◌else◌, Bool, ◌&&◌, none, some, List, [], ◌∷◌,
  ◌++◌, Text, codes, text_eqb, first_row, length, or_else,
}
use lcs_system.Finance.Models.{active, DocumentSequence}

-- Decimal digits of a number, most significant first, in front of `rest`. Each round takes off one
-- digit, so fuel above the number is enough.
unfoldable pub digits_onto : ℕ → ℕ → Text → Text
digits_onto zero n rest = rest
digits_onto (suc fuel) n rest =
    let more = digits_onto fuel (n / 10) ((48 + n % 10) ∷ rest) in
    if ltb n 10 then (48 + n) ∷ rest else more

-- `str(n)`
unfoldable pub str : ℕ → Text
unfolding digits_onto
str n = digits_onto (suc n) n []

abbrev pub zeros : ℕ → Text
zeros zero = []
zeros (suc n) = 48 ∷ zeros n

-- `s.zfill(width)` on a text of digits.
unfoldable pub zfill : ℕ → Text → Text
zfill width s = zeros (width - length s) ++ s

abbrev pub is_sequence : Text → ℕ → DocumentSequence → Bool
is_sequence document_type year s = text_eqb s.document_type document_type && s.period_year == year

abbrev default_prefixes : List (Text × Text)
default_prefixes =
    (codes "QUOTATION", codes "Q")
    ∷ (codes "SERVICE_ORDER", codes "SO")
    ∷ (codes "SERVICE_CHARGE", codes "SC")
    ∷ (codes "CUSTOMER_INVOICE", codes "INV")
    ∷ (codes "CREDIT_NOTE", codes "CN")
    ∷ (codes "SUPPLIER_BILL", codes "BILL")
    ∷ (codes "SUPPLIER_CREDIT_NOTE", codes "SCN")
    ∷ (codes "CUSTOMER_RECEIPT", codes "REC")
    ∷ (codes "SUPPLIER_PAYMENT", codes "PAY")
    ∷ (codes "JOURNAL", codes "JE")
    ∷ []

abbrev first_two : Text → Text
first_two (a ∷ b ∷ _) = a ∷ b ∷ []
first_two s = s

-- `DEFAULT_PREFIXES.get(document_type, document_type[:2])`
unfoldable pub prefix_in : List (Text × Text) → Text → Text
prefix_in [] t = first_two t
prefix_in ((key, p) ∷ rest) t = if text_eqb key t then p else prefix_in rest t

unfoldable pub default_prefix : Text → Text
unfolding prefix_in
default_prefix t = prefix_in default_prefixes t

unfoldable pub new_sequence : Text → ℕ → DocumentSequence
unfolding default_prefix
new_sequence document_type year = record {
  document_type = document_type;
  period_year = year;
  prefix = default_prefix document_type;
  last_value = 0;
  padding_length = 6;
  status = active;
}

-- f"{prefix}{year}-{value padded}"
unfoldable pub number_text : DocumentSequence → Text
unfolding zfill
number_text s = s.prefix ++ (str s.period_year ++ (45 ∷ zfill s.padding_length (str s.last_value)))

abbrev pub advance : DocumentSequence → DocumentSequence
advance s = record s { last_value = s.last_value + 1 }

unfoldable pub modify_sequence :
    Text → ℕ → (DocumentSequence → DocumentSequence) → List DocumentSequence → List DocumentSequence
modify_sequence t y f [] = []
modify_sequence t y f (s ∷ rest) =
    if is_sequence t y s then f s ∷ rest else s ∷ modify_sequence t y f rest

unfoldable pub with_sequence : Text → ℕ → List DocumentSequence → List DocumentSequence
unfolding new_sequence
with_sequence t y l = elim (first_row (is_sequence t y) l) [
  | some _ ↦ l
  | none ↦ new_sequence t y ∷ l
]

-- The number that is allocated, and the sequences after it.
unfoldable pub allocate_number : Text → ℕ → List DocumentSequence → Text × List DocumentSequence
unfolding with_sequence modify_sequence new_sequence
allocate_number t y l =
    let s = advance (or_else (first_row (is_sequence t y) l) (new_sequence t y)) in
    (number_text s, modify_sequence t y advance (with_sequence t y l))
