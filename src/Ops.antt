-- ===== src/Ops.antt =====
-- src/ops: the checks of the stores for the operator, on what the stores hold.
pub mod Chain
pub mod Intact
pub mod Appended
pub mod Health
pub mod Bijection
pub mod Bijective
pub mod ChainCheck
pub mod References
pub mod Referenced
mod Examples
