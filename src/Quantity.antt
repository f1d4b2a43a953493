-- ===== src/Quantity.antt =====
-- pkg/quantity/quantity.go: Kubernetes-style quantities. The checker has no floats: float64, with
-- strconv.ParseFloat, is a parameter, and the laws that a proof needs of it are hypotheses.
pub mod Floats
pub mod Parse
pub mod Accepted
