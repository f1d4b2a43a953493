-- ===== src/Bootstrap.antt =====
-- pkg/bootstrap: the transport from a sandbox's supervisor to the gateway, and the block of cloud-init
-- data that hands it over.
pub mod Config
pub mod Library
pub mod Transport
pub mod Load
pub mod Loaded
pub mod Safety
pub mod Render
pub mod Files
