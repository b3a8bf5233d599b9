-- ===== src/Util.antt =====
-- programs/elysium/src/util: the tick arrays of a swap, and small checks.
pub mod SwapTickSequence
pub mod Authority
