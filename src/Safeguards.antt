-- ===== src/Safeguards.antt =====
-- pkg/safeguards/safeguards.go: limits, records and the registry that both drivers share.
pub mod Records
pub mod Channels
pub mod Registry
pub mod Watchers
pub mod Invariant
pub mod Lookups
pub mod Fading
pub mod Capacity
pub mod Leases
pub mod Sending
pub mod Delivery
pub mod Elsewhere
