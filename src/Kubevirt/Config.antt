-- ===== src/Kubevirt/Config.antt =====
-- `Config` of drivers/kubevirt/config.go. A duration is a number of nanoseconds; the two maps are
-- association lists.
use openshell_drivers_contri.Prelude.{◌*◌, String, false, List, []}
use openshell_drivers_contri.Prelude.Int.{ℤ, pos}
use openshell_drivers_contri.Safeguards.Records.{second, hour}
use openshell_drivers_contri.Bootstrap.Config.{TransportConfig}

pub record Config : Type 0 where
  pub namespace : String
  pub boot_source : String
  pub boot_source_namespace : String
  pub default_instance_type : String
  pub default_preference : String
  pub storage_class : String
  pub storage_labels : List (String × String)
  pub storage_annotations : List (String × String)
  pub transport : TransportConfig
  pub gateway_id : String
  pub disk_size : String
  pub poll_interval : ℤ
  pub max_instances : ℤ
  pub max_instance_age : ℤ

unfoldable pub default_config : Config
default_config = record {
  namespace = "openshell";
  boot_source = "fedora";
  boot_source_namespace = "openshift-virtualization-os-images";
  default_instance_type = "cx1.4xlarge";
  default_preference = "";
  storage_class = "";
  storage_labels = [];
  storage_annotations = [];
  transport = record {
    gateway_endpoint = "";
    ca_cert_pem = [];
    client_cert_pem = [];
    client_key_pem = [];
    insecure = false;
  };
  gateway_id = "";
  disk_size = "100Gi";
  poll_interval = pos (15 * second);
  max_instances = pos 10;
  max_instance_age = pos (8 * hour);
}
