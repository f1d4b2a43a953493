-- ===== src/Bootstrap/Config.antt =====
-- `TransportConfig` and `SecurityBlockParams` of pkg/bootstrap/transport.go.
use openshell_drivers_contri.Prelude.{ℕ, String, Bool, List}

abbrev pub Bytes : Type 0
Bytes = List ℕ

pub record TransportConfig : Type 0 where
  pub gateway_endpoint : String
  pub ca_cert_pem : Bytes
  pub client_cert_pem : Bytes
  pub client_key_pem : Bytes
  pub insecure : Bool

pub record SecurityBlockParams : Type 0 where
  pub sandbox_id : String
  pub sandbox_token : String
  pub log_level : String
  pub max_lifetime : String
