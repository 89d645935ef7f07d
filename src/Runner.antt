-- ===== src/Runner.antt =====
-- society/runner: references, the checks of a graph, the planner and the run of its node tasks.
pub mod Refs
pub mod Checks
pub mod Planner
pub mod Dag
