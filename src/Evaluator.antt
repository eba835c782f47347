-- ===== src/Evaluator.antt =====
-- crates/evaluator/src: who evaluates, and the builds that an evaluation creates.
pub mod Claim
pub mod JobName
pub mod Graph
pub mod Edges
pub mod Describe
pub mod Create
pub mod Inputs
