-- ===== src/Worker.antt =====
-- directdnsonly/worker.py: `WorkerManager`, its queues and the three queue workers.
pub mod State
pub mod Backends
pub mod Save
pub mod Retry
pub mod Delete
