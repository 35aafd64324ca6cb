-- ===== src/Kernel.antt =====
-- src/kernel/cluster-kernel.ts.
pub mod Stored
pub mod Action
pub mod Rules
pub mod Quiet
pub mod Outcomes
pub mod Committing
pub mod Compensating
pub mod Returning
pub mod Directly
pub mod Recording
pub mod Arms
pub mod Commit
pub mod Lifecycle
pub mod Direct
pub mod Reports
pub mod Reads
pub mod Validating
pub mod Validate
pub mod Sample
mod Examples
