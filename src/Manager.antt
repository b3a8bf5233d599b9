-- ===== src/Manager.antt =====
-- programs/elysium/src/manager: the updates of ticks, pools and positions, and the swap.
pub mod Tick
pub mod Pool
pub mod Position
pub mod Liquidity
pub mod Swap
