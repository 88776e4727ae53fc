-- ===== src/Finance.antt =====
-- backend/app/modules/finance: the double-entry engine.
pub mod Fx
pub mod Models
pub mod Periods
pub mod Sequences
pub mod PostingRules
pub mod Posting
pub mod Ledger
pub mod Documents
pub mod Settlement
pub mod Journals
pub mod Entry
pub mod Integrity
pub mod Tests
