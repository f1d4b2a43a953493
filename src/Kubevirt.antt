-- ===== src/Kubevirt.antt =====
-- drivers/kubevirt: the configuration, the catalog, the RPC handlers, the reconciling poll and the adapter
-- of the Kubernetes client.
pub mod Catalog
pub mod Validate
pub mod Config
pub mod Settings
pub mod CloudInit
pub mod Provider
pub mod Conditions
pub mod Create
pub mod Resolve
pub mod Observe
pub mod Sweep
pub mod Poll
pub mod Watcher
pub mod Objects
pub mod Client
pub mod Paging
pub mod Cleanup
pub mod Backoff
pub mod Keeping
pub mod Absence
pub mod Reservations
pub mod Creation
pub mod Commitment
pub mod Marking
