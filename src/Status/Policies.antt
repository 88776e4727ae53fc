-- ===== src/Status/Policies.antt =====
-- The policies of backend/app/modules/master_data/status_policy.py, in the order in which
-- `_policies` assigns them.
use lcs_system.Shared.{
  if◌then◌else◌, Bool, true, false, ◌&&◌, ◌||◌, List, [], ◌∷◌, map, Text, codes, text_eqb,
}
use lcs_system.Status.{
  StatusTransition, Store, StatusPolicy, reference, generic, account, financial_account,
  posting_rule, sequence, period, order, charge, document, journal, quotation, user, role,
  normalize, put, plain, workflow, toggle_transitions, vocabulary_transitions,
}

abbrev reference_write : List Text
reference_write = codes "master.reference.manage" ∷ codes "configuration.manage" ∷ []

abbrev party_role_write : List Text
party_role_write = codes "master.party_roles.update" ∷ codes "master.reference.manage" ∷ []

abbrev asset_vocabulary_write : List Text
asset_vocabulary_write =
    codes "master.transport_assets.update"
    ∷ codes "master.reference.manage"
    ∷ codes "configuration.manage"
    ∷ []

abbrev account_write : List Text
account_write = codes "chart_of_accounts.manage" ∷ []

abbrev posting_rule_write : List Text
posting_rule_write = codes "posting_rule.manage" ∷ []

abbrev sequence_write : List Text
sequence_write = codes "configuration.manage" ∷ []

abbrev period_write : List Text
period_write = codes "accounting_period.close" ∷ []

abbrev order_write : List Text
order_write = codes "service_order.update" ∷ []

abbrev charge_write : List Text
charge_write = codes "service_charge.issue" ∷ []

abbrev document_post : List Text
document_post = codes "financial_document.post" ∷ []

abbrev document_reverse : List Text
document_reverse = codes "financial_document.reverse" ∷ []

abbrev journal_post : List Text
journal_post = codes "journal_entry.post" ∷ []

abbrev quotation_submit : List Text
quotation_submit = codes "quotation.submit" ∷ []

abbrev quotation_convert : List Text
quotation_convert = codes "quotation.convert" ∷ []

abbrev quotation_edit : List Text
quotation_edit = codes "quotation.update_draft" ∷ []

abbrev user_write : List Text
user_write = codes "user.manage" ∷ []

abbrev role_write : List Text
role_write = codes "role.manage" ∷ []

abbrev active_statuses : List Text
active_statuses = codes "ACTIVE" ∷ codes "INACTIVE" ∷ []

abbrev asset_statuses : List Text
asset_statuses = codes "ACTIVE" ∷ codes "INACTIVE" ∷ codes "MAINTENANCE" ∷ []

abbrev reference_collections : List Text
reference_collections =
    codes "businessParties"
    ∷ codes "placeRoles"
    ∷ codes "tradeDirections"
    ∷ codes "containerTypes"
    ∷ codes "transportTypes"
    ∷ codes "transportAssetIdentityTypes"
    ∷ codes "capacityUnits"
    ∷ codes "feeTypes"
    ∷ codes "currencies"
    ∷ codes "documentTypes"
    ∷ []

abbrev generic_vocabularies : List (Text × List Text)
generic_vocabularies =
    (codes "companies", codes "Active" ∷ codes "Inactive" ∷ [])
    ∷ (
      codes "shipments",
      codes "Scheduled"
          ∷ codes "Registered"
          ∷ codes "In Transit"
          ∷ codes "Arrived"
          ∷ codes "Completed"
          ∷ [],
    )
    ∷ (
      codes "customs",
      codes "Preparing"
          ∷ codes "Submitted"
          ∷ codes "Processing"
          ∷ codes "On Hold"
          ∷ codes "Cleared"
          ∷ [],
    )
    ∷ (
      codes "documents",
      codes "Required" ∷ codes "Missing" ∷ codes "Uploaded" ∷ codes "Approved" ∷ [],
    )
    ∷ (
      codes "deliveries",
      codes "Scheduled"
          ∷ codes "Arriving"
          ∷ codes "Unloading"
          ∷ codes "Delivered"
          ∷ codes "POD Received"
          ∷ [],
    )
    ∷ (
      codes "customerPayments",
      codes "Unpaid" ∷ codes "Partial" ∷ codes "Paid" ∷ codes "Overdue" ∷ [],
    )
    ∷ (
      codes "supplierCosts",
      codes "Unpaid" ∷ codes "Partial" ∷ codes "Paid" ∷ codes "Overdue" ∷ [],
    )
    ∷ (
      codes "supplierPayments",
      codes "Unpaid" ∷ codes "Partial" ∷ codes "Paid" ∷ codes "Overdue" ∷ [],
    )
    ∷ []

abbrev Transitions : Type 0
Transitions = List (Text × List StatusTransition)

abbrev quotation_transitions : Transitions
quotation_transitions =
    (
      codes "DRAFT",
      workflow (codes "SUBMITTED") (codes "submit") quotation_submit
          ∷ workflow (codes "CANCELLED") (codes "cancel") quotation_edit
          ∷ [],
    )
    ∷ (
      codes "SUBMITTED",
      workflow (codes "CONVERTED") (codes "convert") quotation_convert
          ∷ workflow (codes "CANCELLED") (codes "cancel") quotation_edit
          ∷ [],
    )
    ∷ (codes "SENT", workflow (codes "CONVERTED") (codes "convert") quotation_convert ∷ [])
    ∷ (codes "ACCEPTED", workflow (codes "CONVERTED") (codes "convert") quotation_convert ∷ [])
    ∷ []

abbrev reopening : StatusTransition
reopening = record (plain (codes "OPEN") (codes "reopen") period_write) {
  confirm = true;
  event_type = codes "PERIOD_REOPENED";
}

abbrev closing : StatusTransition
closing = workflow (codes "CLOSED") (codes "close") period_write

abbrev period_transitions : Transitions
period_transitions =
    (codes "OPEN", closing ∷ [])
    ∷ (codes "REOPENED", closing ∷ reopening ∷ [])
    ∷ (codes "CLOSED", reopening ∷ [])
    ∷ []

abbrev order_transitions : Transitions
order_transitions =
    (
      codes "ACTIVE",
      workflow (codes "FINISHED") (codes "finish") order_write
          ∷ plain (codes "INACTIVE") (codes "deactivate") order_write
          ∷ [],
    )
    ∷ (codes "INACTIVE", plain (codes "ACTIVE") (codes "activate") order_write ∷ [])
    ∷ (
      codes "FINISHED",
      record (plain (codes "ACTIVE") (codes "activate") order_write) { confirm = true } ∷ [],
    )
    ∷ []

abbrev financial_document_transitions : Transitions
financial_document_transitions =
    (codes "DRAFT", workflow (codes "POSTED") (codes "post") document_post ∷ [])
    ∷ (
      codes "POSTED",
      record (workflow (codes "REVERSED") (codes "reverse") document_reverse) { reason = true }
          ∷ [],
    )
    ∷ []

-- A toggle whose events have a name of their own.
abbrev own_toggle : List Text → Text → Transitions
own_toggle permissions event =
    (
      codes "ACTIVE",
      record (plain (codes "INACTIVE") (codes "deactivate") permissions) { event_type = event }
          ∷ [],
    )
    ∷ (
      codes "INACTIVE",
      record (plain (codes "ACTIVE") (codes "activate") permissions) { event_type = event } ∷ [],
    )
    ∷ []

abbrev active_toggle : List Text → Transitions
active_toggle permissions = toggle_transitions (codes "ACTIVE") (codes "INACTIVE") permissions

abbrev policy : Text → Store → List Text → Transitions → StatusPolicy
policy entity_type store statuses transitions = record {
  entity_type = entity_type;
  store = store;
  statuses = statuses;
  transitions = transitions;
}

abbrev pub Policies : Type 0
Policies = List (Text × StatusPolicy)

abbrev is_one_of : List Text → Text → Bool
is_one_of [] t = false
is_one_of (s ∷ rest) t = text_eqb s t || is_one_of rest t

abbrev all_of : List Text → List Text → Bool
all_of [] rest = true
all_of (s ∷ ss) rest = is_one_of rest s && all_of ss rest

-- `{_normalize(value) for value in vocabulary} == {"ACTIVE", "INACTIVE"}`
abbrev is_toggle : List Text → Bool
is_toggle vocabulary =
    let values = map normalize vocabulary in
    all_of values active_statuses && all_of active_statuses values

-- A pair is unpacked; another number of values would raise, and no vocabulary has one.
abbrev pair_toggle : List Text → Transitions
pair_toggle (a ∷ i ∷ []) = toggle_transitions a i reference_write
pair_toggle _ = []

-- The loops of `_policies`.
abbrev put_references : List Text → List Text → Policies → Policies
put_references [] permissions d = d
put_references (c ∷ cs) permissions d =
    put_references cs permissions
      (put c (policy c reference active_statuses (active_toggle permissions)) d)

abbrev put_generics : List (Text × List Text) → Policies → Policies
put_generics [] d = d
put_generics ((c, vocabulary) ∷ rest) d =
    let transitions =
      if is_toggle vocabulary
      then pair_toggle vocabulary
      else vocabulary_transitions vocabulary reference_write in
    put_generics rest (put c (policy c generic vocabulary transitions) d)

abbrev put_documents : List Text → Policies → Policies
put_documents [] d = d
put_documents (c ∷ cs) d = put_documents cs (
    put c
      (policy (codes "financial_document") document
        (codes "DRAFT" ∷ codes "POSTED" ∷ codes "REVERSED" ∷ []) financial_document_transitions)
      d)

abbrev reference_policies : Policies
reference_policies =
    put_references (codes "transportAssetIdentityTypes" ∷ codes "capacityUnits" ∷ [])
      asset_vocabulary_write
      (put (codes "partyRoles")
        (policy (codes "partyRoles") reference active_statuses (active_toggle party_role_write))
        (put (codes "transportAssets")
          (policy (codes "transportAssets") reference asset_statuses
            (vocabulary_transitions asset_statuses reference_write))
          (put_references reference_collections reference_write [])))

abbrev finance_policies : Policies → Policies
finance_policies d =
    put (codes "accountingPeriods")
      (policy (codes "accounting_period") period
        (codes "OPEN" ∷ codes "CLOSED" ∷ codes "REOPENED" ∷ []) period_transitions)
      (put (codes "documentSequences")
        (policy (codes "document_sequence") sequence active_statuses (active_toggle sequence_write))
        (put (codes "postingRules")
          (policy (codes "posting_rule") posting_rule active_statuses
            (active_toggle posting_rule_write))
          (put (codes "financialAccounts")
            (policy (codes "financial_account") financial_account active_statuses
              (active_toggle account_write))
            (put (codes "chartOfAccounts")
              (policy (codes "chart_of_account") account active_statuses
                (active_toggle account_write))
              d))))

abbrev workflow_policies : Policies → Policies
workflow_policies d =
    put (codes "quotations")
      (policy (codes "quotation_revision") quotation
        (codes "DRAFT"
          ∷ codes "SUBMITTED"
          ∷ codes "SENT"
          ∷ codes "ACCEPTED"
          ∷ codes "REJECTED"
          ∷ codes "CONVERTED"
          ∷ codes "SUPERSEDED"
          ∷ codes "CANCELLED"
          ∷ [])
        quotation_transitions)
      (put (codes "journals")
        (policy (codes "journal_entry") journal (codes "DRAFT" ∷ codes "POSTED" ∷ [])
          ((codes "DRAFT", workflow (codes "POSTED") (codes "post") journal_post ∷ []) ∷ []))
        (put_documents
          (codes "debitNotes"
            ∷ codes "customerPayments"
            ∷ codes "supplierCosts"
            ∷ codes "supplierPayments"
            ∷ [])
          (put (codes "jobCharges")
            (policy (codes "service_charge") charge (codes "DRAFT" ∷ codes "ISSUED" ∷ [])
              ((codes "DRAFT", workflow (codes "ISSUED") (codes "issue") charge_write ∷ []) ∷ []))
            (put (codes "jobs")
              (policy (codes "service_order") order
                (codes "ACTIVE" ∷ codes "INACTIVE" ∷ codes "FINISHED" ∷ []) order_transitions)
              d))))

-- `STATUS_POLICIES`
unfoldable pub status_policies : Policies
status_policies =
    put (codes "roles")
      (policy (codes "role") role active_statuses (own_toggle role_write (codes "ROLE_UPDATED")))
      (put (codes "users")
        (policy (codes "user") user active_statuses (own_toggle user_write (codes "USER_UPDATED")))
        (workflow_policies
          (finance_policies (put_generics generic_vocabularies reference_policies))))
