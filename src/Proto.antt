-- ===== src/Proto.antt =====
-- The messages of gen/computepb/compute_driver.pb.go (from proto/compute_driver.proto): the fields
-- that the drivers read or write, with the getters that accept a nil message. A nil pointer is
-- `none`. A `google.protobuf.Struct` is never read, only tested against nil and copied: it is kept as
-- its encoded bytes.
pub mod Messages
pub mod Getters
