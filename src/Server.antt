-- ===== src/Server.antt =====
-- pkg/server/server.go: the gRPC server that both commands run a driver under.
pub mod Options
pub mod Limit
pub mod Bounded
pub mod Listen
pub mod Local
pub mod Run
pub mod Outcomes
