-- ===== src/Ec2.antt =====
-- drivers/ec2: the configuration, the provider boundary, the RPC handlers and the reconciling poll.
pub mod Config
pub mod Settings
pub mod Provider
pub mod UserData
pub mod Catalog
pub mod Validate
pub mod Conditions
pub mod Adapter
pub mod Create
pub mod Resolve
pub mod Observe
pub mod Poll
pub mod Watcher
pub mod Admission
pub mod Readiness
pub mod Recovery
pub mod Missing
pub mod Creation
pub mod Commitment
pub mod Identity
pub mod Deletion
pub mod Duplicates
pub mod Absence
pub mod Elsewhere
pub mod Dropping
pub mod Sorting
