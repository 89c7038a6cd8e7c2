-- ===== src/PeerSync.antt =====
-- directdnsonly/app/peer_sync.py: `PeerSyncWorker`.
pub mod Peers
pub mod Health
pub mod Zones
pub mod Pass
pub mod Run
