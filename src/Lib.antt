-- ===== src/Lib.antt =====
-- The bookkeeping core and the quotation workflow of the logistics system's backend
-- (backend/app), and what keeps its ledger, its subledger and its offers right.
--
-- The program is a web service over one database. Its finance module turns financial documents
-- (invoices, bills, receipts, payments) into journal entries: core/fx.py validates rates and rounds
-- money; core/sequences.py hands out document numbers; modules/finance/posting_rules.py finds the
-- accounts; modules/finance/posting.py builds the balanced draft of an entry; and
-- modules/finance/service.py posts and reverses documents, allocates payments to invoices, keeps
-- manual journals, and opens and closes periods. The quotations module moves offers through a
-- workflow that ends in a service order, and the auth module signs users in,
-- renews their sessions, and administers users, roles and permissions.
--
-- Which file models what:
--   Shared               tests, integers over the native numbers, lists, texts, and the refusals of
--                        core/exceptions.py as a result type
--   Finance/Fx           core/fx.py: to_decimal, is_valid_rate, normalize_rate, same_currency,
--                        document_rate, currency_precision, quantize_money, convert_to_base
--   Finance/Models       modules/finance/models.py: the rows, and `Books`, all tables at once
--   Finance/Periods      resolve_period, update_period, close_period, reopen_period of service.py
--   Finance/Sequences    core/sequences.py: allocate_number
--   Finance/PostingRules modules/finance/posting_rules.py: tier, select_rule, resolve; and, in
--                        Administration, the calls of service.py that change the rules
--   Finance/Posting      modules/finance/posting.py: build and its parts
--   Finance/Ledger       rows found and changed by key, sums of journal lines, precision_for
--                        (`currency_precision` of modules/master_data/currency_rates.py)
--   Finance/Documents    post_document, reverse_document, delete_draft_documents
--   Finance/Entry        save_document with its payload, rates, lines and totals, and parse_decimal and
--                        resolve_line_tax of core/validation.py
--   Finance/Settlement   allocate_payment and _allocation_fx
--   Finance/Journals     save_journal, post_journal, delete_journals
--   Finance/Integrity    the calls as steps on the books, and what every sequence of them keeps
--   Finance/Tests        books to run the calls on
--   Reports              modules/reports: the range and the pages of a report, and the trial balance
--                        of ledger_reports.py with its query in repository.py
--   Status               modules/master_data/status_policy.py, the table of statuses and transitions,
--                        and change_status of status_service.py over an interface of stores, which
--                        Status/Finance fills with the calls on rules and periods
--   Auth                 modules/auth/service.py: lockout_policy and authenticate; and, in Sessions,
--                        rotate_refresh_token with validate_session and _refresh_record
--   Access               core/authorization/service.py, the rows of users' roles and roles' grants;
--                        core/permissions.py, what a choice of codes stores; and the calls of
--                        modules/auth/service.py on users and roles, in Governed as steps;
--                        Roles/Passed and Users/Passed say what a call that goes through
--                        has passed, for Governed and Escalation
--   Quotations           the workflow calls of modules/quotations/service.py, with the queries of
--                        its repository.py: send, submit, accept, reject, cancel, convert
--
-- How the state corresponds: a table is a list of rows in an arbitrary order, a primary key a field,
-- a search by key the first row that has it. A call takes the books and returns the books that its
-- transaction commits, or an error and no books: a raised error rolls the transaction back. Calls
-- are steps in a sequence. For the calls on documents, payments and the posting of journals that is
-- what their row locks bring about; other calls, convert_revision, authenticate and the saving and
-- deleting of journals among them, take no such lock, and are taken in turn all the same. `next_id`
-- is a supply of fresh keys for all tables.
--
-- Amounts are integers: a money column counts ten-thousandths, a rate column 10^-8. A value that
-- is written to a money column is rounded there to four places, halves away from zero, as PostgreSQL
-- does. Products are exact; the 28 digits of Python's decimal context are not a bound here. Texts
-- are lists of character codes, stripped and raised to upper case as ASCII.
-- Fuel: the decimal digits of a number have one round more than the number, and the search for the
-- code of a role two rounds more than there are codes.
--
-- Not modelled: free text, time stamps but those of periods, audit events, caches, the JSON that a
-- call answers with (but the amounts that `allocate_payment` reports), and the validation of
-- payloads, whose results are arguments. Entry of quotations, operations, reference data,
-- other calls on sessions, recovery of passwords and the other reports are not modelled either; the
-- service order that a conversion of a quotation creates is an argument. The triggers of
-- backend/alembic/versions/e6f7a8b9c0d1_reporting_views_and_integrity.py are not modelled: they can
-- make a commit fail that the calls let through, as when a period has the old label REOPENED.
pub mod Shared
pub mod Finance
pub mod Quotations
pub mod Reports
pub mod Status
pub mod Auth
pub mod Access
