-- ===== src/State.antt =====
-- programs/elysium/src/state: the accounts of the program.
pub mod Tick
pub mod TickArray
pub mod Config
pub mod FeeTier
pub mod RewardInfo
pub mod Pool
pub mod Position
pub mod PositionBundle
