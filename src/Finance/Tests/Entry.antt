-- ===== src/Finance/Tests/Entry.antt =====
-- Runs of the entry of documents.
use lcs_system.Shared.{
  ◌≡◌, refl, arith, false, true, none, some, [], ◌∷◌, map, ok, err, conflict, journal_unbalanced,
  pos, List, ℕ, ℤ, codes, ◌<◌,
}
use lcs_system.Finance.Fx.{null, decimal, finite}
use lcs_system.Finance.Models.{
  Books, customer_invoice, customer_receipt, FinancialDocument, DocumentStatus,
}
use lcs_system.Finance.Ledger.{find_document}
use lcs_system.Finance.Documents.{post_document}
use lcs_system.Finance.Entry.{LineInput}
use lcs_system.Finance.Entry.Payload.{EntryTables, DocumentInput, no_key, key}
use lcs_system.Finance.Entry.Save.{save_document}
use lcs_system.Finance.Entry.Saved.{
  saved_key, IsEntered, save_document-IsEntered, save_document-keeps,
}
use lcs_system.Finance.Tests.{or_books, request, books, document}

-- A thousandth, at a price of five hundredths.
abbrev small_line : LineInput
small_line = record {
  quantity = decimal (finite (record { coefficient = pos 1; places = 3 }));
  unit_price = decimal (finite (record { coefficient = pos 5; places = 2 }));
  unit_amount = null;
  discount = null;
  tax_rate = null;
  tax_amount = null;
  tax = null;
  fee_type = ok none;
  account = none;
}

abbrev tables : EntryTables
tables = record { types = []; orders = []; parties = []; rates = [] }

abbrev input : DocumentInput
input = record {
  id = no_key;
  document_type = some customer_invoice;
  document_type_id = none;
  document_no = some (codes "X1");
  date = none;
  document_date = none;
  posting_date = none;
  due_date = none;
  value_date = none;
  party_id = none;
  service_order_id = none;
  currency = none;
  exchange_rate = null;
  lines = small_line ∷ small_line ∷ small_line ∷ [];
}

unfoldable created : Books
unfolding save_document
created = or_books (save_document request tables input books)

is_created_document : save_document request tables input books ≡ ok created
unfolding created lcs_system.Finance.Entry.Payload.resolve_type
    lcs_system.Finance.Entry.Payload.check_dates lcs_system.Finance.Entry.Payload.check_manual
    lcs_system.Finance.Entry.Rates.document_currency_inputs
    lcs_system.Finance.Journals.assert_currency_code lcs_system.Finance.Ledger.precision_for
    lcs_system.Finance.Fx.same_currency lcs_system.Finance.Entry.entry_lines lcs_system.Shared.◌*ℤ◌
    lcs_system.Finance.Fx.convert_to_base
is_created_document = refl

-- Each line amount is rounded up to a ten-thousandth, and the total from 0.00015 to 0.0002.
rounds :
    map {B = ℤ × List ℤ} (λ d. (d.total_amount, map (λ l. l.line_amount) d.lines)) created.documents
    ≡ (pos 2, pos 1 ∷ pos 1 ∷ pos 1 ∷ [])
      ∷ map (λ d. (d.total_amount, map (λ l. l.line_amount) d.lines)) books.documents
unfolding created lcs_system.Finance.Entry.Payload.resolve_type
    lcs_system.Finance.Entry.Payload.check_dates lcs_system.Finance.Entry.Payload.check_manual
    lcs_system.Finance.Entry.Rates.document_currency_inputs
    lcs_system.Finance.Journals.assert_currency_code lcs_system.Finance.Ledger.precision_for
    lcs_system.Finance.Fx.same_currency lcs_system.Finance.Entry.entry_lines lcs_system.Shared.◌*ℤ◌
    lcs_system.Finance.Fx.convert_to_base lcs_system.Finance.Fx.quantize
    lcs_system.Finance.Fx.round_half_up lcs_system.Shared.◌+ℤ◌ lcs_system.Shared.◌-ℤ◌
rounds = refl

-- The document that was saved is refused when it is posted.
is_refused : post_document request 10 created ≡ err (conflict journal_unbalanced)
unfolding created post_document lcs_system.Finance.Entry.Payload.resolve_type
    lcs_system.Finance.Entry.Payload.check_dates lcs_system.Finance.Entry.Payload.check_manual
    lcs_system.Finance.Entry.Rates.document_currency_inputs
    lcs_system.Finance.Journals.assert_currency_code lcs_system.Finance.Ledger.precision_for
    lcs_system.Finance.Fx.same_currency lcs_system.Finance.Entry.entry_lines lcs_system.Shared.◌*ℤ◌
    lcs_system.Finance.Fx.convert_to_base lcs_system.Finance.Periods.resolve_period
    lcs_system.Finance.Periods.new_period lcs_system.Finance.Posting.build
    lcs_system.Finance.PostingRules.resolve lcs_system.Finance.PostingRules.tier
    lcs_system.Finance.PostingRules.legacy_accounts
    lcs_system.Finance.PostingRules.validate_postable lcs_system.Finance.Posting.draft_lines
    lcs_system.Finance.Posting.strategy_for lcs_system.Finance.Posting.add_detailed
    lcs_system.Finance.Posting.detail_account lcs_system.Finance.Posting.assert_balanced
    lcs_system.Finance.Documents.with_base_amounts lcs_system.Finance.Ledger.base_amount
    lcs_system.Finance.Ledger.sum_of lcs_system.Finance.Fx.quantize
    lcs_system.Finance.Fx.round_half_up lcs_system.Shared.◌+ℤ◌ lcs_system.Shared.◌-ℤ◌
    lcs_system.Finance.Documents.lines_of_draft
is_refused = refl

save_document-IsEntered_example :
    (d : FinancialDocument) × (find_document (saved_key input books) created.documents ≡ some d)
    × IsEntered d
save_document-IsEntered_example =
    save_document-IsEntered request tables input books is_created_document

save_document-keeps_example :
    (find_document 2 created.documents ≡ some (document 2 customer_receipt DocumentStatus.posted))
    × (created.entries ≡ books.entries)
save_document-keeps_example =
    save_document-keeps request tables input books is_created_document 2
      (document 2 customer_receipt DocumentStatus.posted) refl (λ e. cc) (omega arith)
