-- ===== src/Instructions.antt =====
-- programs/elysium/src/instructions: the handlers, with the constraints on their accounts.
pub mod Outcome
pub mod Runtime
pub mod Transfers
pub mod Trade
pub mod Liquidity
pub mod Collect
pub mod Positions
pub mod Bundles
pub mod Setup
pub mod Admin
pub mod Lifetime
pub mod Signed
