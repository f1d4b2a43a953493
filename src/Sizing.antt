-- ===== src/Sizing.antt =====
-- `SelectInstanceType`, which drivers/ec2/instancetype.go and drivers/kubevirt/instancetype.go share
-- but for their catalogs and their treatment of an empty default.
pub mod Select
pub mod Laws
pub mod Sorting
