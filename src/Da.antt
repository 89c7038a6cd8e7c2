-- ===== src/Da.antt =====
-- directdnsonly/app/da/client.py: the DirectAdmin client.
pub mod Client
pub mod Domains
pub mod Servers
