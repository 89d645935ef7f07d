-- ===== src/Memory.antt =====
-- society/memory: the store of handoff values and the audit trail.
pub mod Kv
pub mod Lineage
