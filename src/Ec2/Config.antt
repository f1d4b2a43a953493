-- ===== src/Ec2/Config.antt =====
-- The configuration of drivers/ec2/config.go.
use openshell_drivers_contri.Prelude.{String, Bool, false, ◌*◌, []}
use openshell_drivers_contri.Prelude.Int.{ℤ, pos}
use openshell_drivers_contri.Safeguards.Records.{second, hour}
use openshell_drivers_contri.Bootstrap.Config.{TransportConfig}

pub record Config : Type 0 where
  pub ami_id : String
  pub default_instance : String
  pub subnet_id : String
  pub security_group_id : String
  pub key_name : String
  pub transport : TransportConfig
  pub gateway_id : String
  pub region : String
  pub poll_interval : ℤ
  pub use_spot : Bool
  pub disk_size_gb : ℤ
  pub max_instances : ℤ
  pub max_instance_age : ℤ

unfoldable pub default_config : Config
default_config = record {
  ami_id = "";
  default_instance = "c7i.4xlarge";
  subnet_id = "";
  security_group_id = "";
  key_name = "";
  transport = record {
    gateway_endpoint = "";
    ca_cert_pem = [];
    client_cert_pem = [];
    client_key_pem = [];
    insecure = false;
  };
  gateway_id = "";
  region = "us-east-1";
  poll_interval = pos (15 * second);
  use_spot = false;
  disk_size_gb = pos 200;
  max_instances = pos 10;
  max_instance_age = pos (8 * hour);
}
