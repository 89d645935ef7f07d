-- ===== src/Agentsim.antt =====
-- agentsim: the capacity that sessions share, and the leases on it.
pub mod Buckets
pub mod Ledger
pub mod Resource
pub mod Model
pub mod Control
