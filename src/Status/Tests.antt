-- ===== src/Status/Tests.antt =====
-- Changes of status: of a record that is its status, and of rows of the books.
use lcs_system.Shared.{
  ℕ, ◌≡◌, ◌≢◌, ◌⊎◌, refl, true, false, none, some, [], ◌∷◌, Option, Outcome, ok, err, conflict,
  transition_requires_command, access_denied, not_found, validation_failed, Text, codes, is_found,
  All,
}
use lcs_system.Finance.Models.{Books, closed}
use lcs_system.Finance.Periods.{reopen_period}
use lcs_system.Finance.Tests.Engine.{ruled}
use lcs_system.Status.{
  StatusPolicy, StatusTransition, journal, get, transition, canonical, same_status, workflow,
}
use lcs_system.Status.Policies.{status_policies}
use lcs_system.Status.WellFormed.{transition-leads_on}
use lcs_system.Status.Service.{Caller, StatusStores, change_status}
use lcs_system.Status.Changes.{
  Found, Moved, workflow_collections, change_status-cases, change_status-refused,
}
use lcs_system.Status.Finance.{Audited, finance_stores, change_status-reopens}

-- A record that is its own status.
abbrev cell : StatusStores Text
cell = record {
  load = λ store collection key s. ok s;
  apply = λ store collection key to s. ok to;
  write_audit = λ event s. s;
}

abbrev nobody : Caller
nobody = record { has_permission = λ code. false }

abbrev manager : Caller
manager = record { has_permission = λ code. true }

-- What a manager may do with a shipment, a period and a journal.
changes :
    (change_status cell manager
        (codes "shipments")
        (some 1)
        (codes "arrived")
        none
        (codes "Scheduled")
      ≡ ok (codes "Arrived"))
    × (change_status cell manager
          (codes "accountingPeriods")
          (some 1)
          (codes "CLOSED")
          none
          (codes "OPEN")
        ≡ err (conflict transition_requires_command))
    × (change_status cell nobody
          (codes "currencies")
          (some 1)
          (codes "INACTIVE")
          none
          (codes "ACTIVE")
        ≡ err access_denied)
    × (change_status cell manager
          (codes "customerPayments")
          (some 1)
          (codes "Paid")
          none
          (codes "DRAFT")
        ≡ err validation_failed)
unfolding change_status status_policies canonical transition
changes = (refl, refl, refl, refl)

abbrev or_policy : Option StatusPolicy → StatusPolicy
or_policy (some p) = p
or_policy none = record { entity_type = []; store = journal; statuses = []; transitions = [] }

unfoldable journal_policy : StatusPolicy
unfolding status_policies
journal_policy = or_policy (get (codes "journals") status_policies)

abbrev post : StatusTransition
post = workflow (codes "POSTED") (codes "post") (codes "journal_entry.post" ∷ [])

is_journal : get (codes "journals") status_policies ≡ some journal_policy
unfolding journal_policy status_policies
is_journal = refl

is_post : transition journal_policy (codes "draft") (codes "POSTED") ≡ some post
unfolding journal_policy transition
is_post = refl

transition-leads_on_example :
    (is_found (canonical journal_policy (codes "POSTED")) ≡ true)
    × (same_status (codes "POSTED") (codes "draft") ≡ false)
transition-leads_on_example =
    transition-leads_on (codes "journals") journal_policy (codes "draft") (codes "POSTED") post
      is_journal is_post

-- A shipment arrives.
arrives :
    change_status cell manager
      (codes "shipments")
      (some 1)
      (codes "arrived")
      none
      (codes "Scheduled")
    ≡ ok (codes "Arrived")
arrives = changes.0

change_status-cases_example :
    (f : Found cell manager (codes "shipments") (some 1) (codes "arrived") (codes "Scheduled"))
    × (((same_status f.current f.to ≡ true)
          × (cell.apply f.policy.store (codes "shipments") f.key f.to (codes "Scheduled")
              ≡ ok (codes "Arrived")))
        ⊎ Moved cell manager f.policy
            (codes "shipments")
            f.key
            f.current
            f.to
            none
            (codes "Scheduled")
            (codes "Arrived"))
change_status-cases_example =
    change_status-cases cell manager (codes "shipments") (some 1) (codes "arrived") none
      (codes "Scheduled") arrives

change_status-refused_example :
    All
      (λ collection.
        change_status cell manager collection (some 1) (codes "POSTED") none (codes "DRAFT")
        ≢ ok (codes "POSTED"))
      workflow_collections
change_status-refused_example =
    change_status-refused cell manager (some 1) (codes "POSTED") none (codes "DRAFT")
      (codes "POSTED")

-- A user is named active once more, by nobody in particular.
named_again :
    change_status cell nobody (codes "users") (some 1) (codes "active") none (codes "ACTIVE")
    ≡ ok (codes "ACTIVE")
unfolding change_status status_policies canonical transition
named_again = refl

-- Books with two rules and a period that is closed.
abbrev march : Books
march = record ruled {
  periods =
      record {
        id = 4;
        period_year = 2026;
        period_month = 3;
        start_date = record { year = 2026; month = 3; day = 1 };
        end_date = record { year = 2026; month = 3; day = 31 };
        status = closed;
        closed_by_user_id = some 7;
        closed_at = some 1000;
      }
      ∷ [];
}

abbrev no_others : StatusStores Audited
no_others = record {
  load = λ store collection key s. err not_found;
  apply = λ store collection key to s. err not_found;
  write_audit = λ event s. s;
}

abbrev or_audited : Outcome Audited → Audited
or_audited (ok s) = s
or_audited (err _) = record { books = ruled; events = [] }

abbrev at_start : Audited
at_start = record { books = march; events = [] }

unfoldable in_march : Audited
unfolding change_status
in_march = or_audited (
    change_status (finance_stores no_others) manager (codes "accountingPeriods") (some 4)
      (codes "open") none at_start)

is_reopened :
    change_status
      (finance_stores no_others)
      manager
      (codes "accountingPeriods")
      (some 4)
      (codes "open")
      none
      at_start
    ≡ ok in_march
unfolding in_march status_policies canonical transition reopen_period
is_reopened = refl

change_status-reopens_example :
    (key : ℕ) × (some 4 ≡ some key) × (reopen_period key march ≡ ok in_march.books)
change_status-reopens_example =
    change_status-reopens no_others manager (some 4) (codes "open") none at_start in_march
      is_reopened

unfoldable switched_off : Audited
unfolding change_status
switched_off = or_audited (
    change_status (finance_stores no_others) manager (codes "postingRules") (some 1)
      (codes "INACTIVE") none at_start)
