-- ===== src/Providers.antt =====
-- society/providers: what the workers are given and return.
pub mod Types
pub mod Fallback
pub mod Samples
