-- ===== src/Evaluator.antt =====
-- src/evaluator.c: the tree-walking evaluator.
pub mod Text
pub mod State
pub mod Equal
pub mod Reflexive
pub mod Operators
pub mod Division
pub mod Parts
pub mod Eval
pub mod Scopes
pub mod Steady
pub mod Discipline
