-- ===== src/Store.antt =====
-- src/domain/domain.cpp, `session_store`: one session's values and objects under its limits.
pub mod State
pub mod Values
pub mod Objects
pub mod Methods
pub mod Execute
pub mod Outcomes
pub mod Invocations
pub mod Invariant
pub mod Atomicity
pub mod Accounting
pub mod Preservation
pub mod Sharing
pub mod Retention
pub mod ObjectReads
pub mod Cursors
pub mod Paging
pub mod Acceptance
