-- ===== src/Commands.antt =====
-- cmd: the programs that run a driver.
pub mod Flags
pub mod DriverEc2
pub mod DriverKubevirt
pub mod Chosen
pub mod Started
pub mod StartedKubevirt
