-- ===== src/Examples.antt =====
-- Concrete runs: the data that the examples share, and each theorem applied to it.
pub mod Data
pub mod Evaluations
pub mod Reports
pub mod Tiers
pub mod Slices
pub mod Trees
pub mod Ledgers
pub mod Monitors
pub mod Registries
pub mod Graphs
pub mod Loads
pub mod Guards
