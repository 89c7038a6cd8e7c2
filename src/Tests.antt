-- ===== src/Tests.antt =====
-- The theorems at concrete inputs, and runs of the definitions.
mod Samples
mod Worker
mod Reconciler
mod PeerSync
mod Status
mod Admin
mod Internal
mod Da
mod Exchange
mod System
mod Backend
mod Main
mod Publish
