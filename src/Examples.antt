-- ===== src/Examples.antt =====
-- A concrete instance of the dependencies, and runs of the theorems on it.
pub mod FixedInt
pub mod ToyCrates
pub mod Data
mod Layers
mod Parts
mod Replies
mod Journey
mod Return
mod Scenarios
mod Setups
mod Packets
mod Errors
mod Sizes
