-- ===== src/Tests.antt =====
-- Concrete inputs, and the theorems at them.
mod Fixtures
mod SizingTests
mod SafeguardsTests
mod Ec2Tests
mod Transports
mod BootstrapTests
mod KubevirtTests
mod ClientTests
mod AdapterTests
mod PollTests
mod DriverTests
mod ServerTests
mod CommandTests
