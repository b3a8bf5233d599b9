-- ===== src/Math.antt =====
-- programs/elysium/src/math: the fixed-point arithmetic of the pools.
pub mod U256
pub mod Bit
pub mod Liquidity
pub mod Tick
pub mod Token
pub mod Swap
