-- ===== src/Tests/DriverTests.antt =====
-- The configuration of the EC2 driver, and the validation of the KubeVirt driver, at concrete inputs.
use openshell_drivers_contri.Prelude.{◌≡◌, refl, none, some, [], ◌∷◌}
use openshell_drivers_contri.Prelude.Result.{ok}
use openshell_drivers_contri.Proto.Messages.{DriverSandbox, DriverResourceRequirements}
use openshell_drivers_contri.Quantity.Parse.{validate_requirements, parse_cpu, parse_memory}
use openshell_drivers_contri.Safeguards.Registry.{new_registry}
use openshell_drivers_contri.Service.{World}
use openshell_drivers_contri.Safeguards.Records.{Record, zero_record}
use openshell_drivers_contri.Ec2.Config.{Config, default_config}
use openshell_drivers_contri.Ec2.Settings.{limits_of}
use openshell_drivers_contri.Ec2.Validate.{validate_text, validate_log_level, validate_resources}
use openshell_drivers_contri.Ec2.Validate as Ec2
use openshell_drivers_contri.Kubevirt.Validate.{
  validate_sandbox, validate_spec, validate_template, unsupported_fields, IsSupported,
  validate_sandbox-IsSupported,
}
use openshell_drivers_contri.Tests.Transports.{secure_transport}
use openshell_drivers_contri.Tests.Fixtures.{whole_floats, read_number}

abbrev pub filled_config : Config
filled_config = record default_config {
  ami_id = "ami-1";
  subnet_id = "subnet-1";
  security_group_id = "sg-1";
  gateway_id = "gateway";
  transport = secure_transport;
}

abbrev pub request : DriverResourceRequirements
request = record { cpu_request = "2"; cpu_limit = ""; memory_request = "4Gi"; memory_limit = "" }

abbrev pub plain_box : DriverSandbox
plain_box = record {
  id = "box";
  name = "my-box";
  namespace = "";
  spec = some (record {
    log_level = "";
    environment = [];
    template = some (record {
      image = "";
      agent_socket_path = "";
      labels = [];
      environment = [];
      resources = some request;
      platform_config = none;
      driver_config = none;
    });
    resource_requirements = none;
    sandbox_token = "secret";
  });
  status = none;
  workspace = "";
}

validate_sandbox-IsSupported_example :
    (Ec2.validate_sandbox whole_floats (some plain_box) ≡ ok tt) × IsSupported plain_box
unfolding validate_sandbox validate_spec validate_template Ec2.validate_template validate_text
    validate_log_level validate_resources validate_requirements parse_cpu parse_memory read_number
    unsupported_fields
validate_sandbox-IsSupported_example = validate_sandbox-IsSupported whole_floats plain_box refl

abbrev pub launching_box : Record
launching_box = record zero_record { sandbox_id = "box"; state = "launching"; lease = 1 }

abbrev pub launching : World (Unit {0})
launching = record {
  registry = record (new_registry (limits_of filled_config)) {
    records = ("box", launching_box) ∷ [];
  };
  cloud = tt;
  clock = 3;
}
