-- ===== src/Reconciler.antt =====
-- directdnsonly/app/reconciler.py: `ReconciliationWorker`.
pub mod Poll
pub mod Compare
pub mod Heal
pub mod Pass
pub mod Run
pub mod Config
pub mod Client
