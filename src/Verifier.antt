-- ===== src/Verifier.antt =====
-- reference-implementation/src/ski_model/v3/verifier.py, one module for each of its sections.
pub mod Handlers
pub mod Window
pub mod Predicates
pub mod Grounding
pub mod Enumerate
pub mod Tally
pub mod Verify
pub mod Breach
pub mod Reported
pub mod Agreed
pub mod Checks
pub mod Peak
pub mod Normal
pub mod Complete
pub mod Inputs
