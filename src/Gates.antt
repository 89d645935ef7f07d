-- ===== src/Gates.antt =====
-- society/gates: verdicts, the validator of graphs, the deterministic gates and the executor.
pub mod Types
pub mod Validator
pub mod Executor
pub mod Checks
