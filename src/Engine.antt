-- ===== src/Engine.antt =====
-- The policy evaluation engine (src/edge/engine).
pub mod Compiler
pub mod Evaluator
pub mod Priority
pub mod Conditions
