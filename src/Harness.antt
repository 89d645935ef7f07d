-- ===== src/Harness.antt =====
-- society/harness: the gateway that admits the agents' calls.
pub mod Issue
pub mod Gateway
pub mod Governed
