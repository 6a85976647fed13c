-- ===== src/Governance.antt =====
-- The governors above the engine: extensions/aille_meta_governance.cpp and
-- extensions/aille_governor_reconciliation.cpp. A `double` is one type with the interface.
pub mod Meta
pub mod Proposals
pub mod Reconcile
mod Tests
