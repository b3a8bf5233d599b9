-- ===== src/Examples.antt =====
-- Concrete runs: tests of the definitions, and the theorems at concrete data.
mod Ticks
mod Arrays
mod Numbers
mod Division
mod StepsA
mod Bundles
mod Pools
mod Swaps
pub mod Trades
pub mod Calls
pub mod Positions
pub mod Steps
