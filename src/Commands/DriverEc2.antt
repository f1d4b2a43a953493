-- ===== src/Commands/DriverEc2.antt =====
-- `loadConfig` of cmd/openshell-driver-ec2/main.go.
use openshell_drivers_contri.Prelude.{String, Bool, false, List, [], ◌∷◌, join}
use openshell_drivers_contri.Prelude.Int.{ℤ, pos}
use openshell_drivers_contri.Prelude.Result.{Result, ok, err}
use openshell_drivers_contri.Bootstrap.Config.{TransportConfig}
use openshell_drivers_contri.Bootstrap.Library.{Library}
use openshell_drivers_contri.Bootstrap.Load.{LoadError, load_transport_config}
use openshell_drivers_contri.Ec2.Config.{Config, default_config}
use openshell_drivers_contri.Ec2.Settings.{ConfigError, validate}
use openshell_drivers_contri.Server.Options.{Options}
use openshell_drivers_contri.Commands.Flags.{
  Flags, Process, BadValue, apply, apply_string, string_of, bool_of, int_of, duration_of, to_int32,
}

pub record AppConfig : Type 0 where
  pub driver : Config
  pub server : Options

pub data ConfigFailure : Type 0 where
  bad_flags : String → ConfigFailure
  bad_values : List BadValue → ConfigFailure
  bad_transport : LoadError → ConfigFailure
  bad_config : List ConfigError → ConfigFailure

-- The variables of `loadConfig` after the environment has been applied.
pub record Variables : Type 0 where
  pub socket_path : String
  pub bind_address : String
  pub ami_id : String
  pub instance_type : String
  pub subnet_id : String
  pub security_group_id : String
  pub key_name : String
  pub gateway_endpoint : String
  pub gateway_ca : String
  pub client_cert : String
  pub client_key : String
  pub insecure : Bool
  pub gateway_id : String
  pub region : String
  pub poll_interval : ℤ
  pub spot : Bool
  pub disk_size_gb : ℤ
  pub max_instances : ℤ
  pub max_instance_age : ℤ

module _ (process : Process) (flags : Flags) where
  -- The variables, and `errs`.
  unfoldable pub variables : Variables × List BadValue
  unfolding apply apply_string default_config
  variables =
      let (insecure, e₁) = bool_of process flags "insecure" "OPENSHELL_INSECURE" false in
      let (poll_interval, e₂) =
        duration_of process flags "poll-interval" "OPENSHELL_EC2_POLL_INTERVAL"
          default_config.poll_interval in
      let (spot, e₃) = bool_of process flags "spot" "OPENSHELL_EC2_SPOT" default_config.use_spot in
      let (disk_size_gb, e₄) =
        int_of process flags "disk-size-gb" "OPENSHELL_EC2_DISK_SIZE_GB"
          default_config.disk_size_gb in
      let (max_instances, e₅) =
        int_of process flags "max-instances" "OPENSHELL_EC2_MAX_INSTANCES"
          default_config.max_instances in
      let (max_instance_age, e₆) =
        duration_of process flags "max-instance-age" "OPENSHELL_EC2_MAX_INSTANCE_AGE"
          default_config.max_instance_age in
      (
        record {
          socket_path =
              string_of process flags "socket" "OPENSHELL_DRIVER_SOCKET" "/run/openshell/ec2.sock";
          bind_address = string_of process flags "bind-address" "OPENSHELL_DRIVER_BIND" "";
          ami_id = string_of process flags "ami-id" "OPENSHELL_EC2_AMI_ID" default_config.ami_id;
          instance_type =
              string_of process flags "instance-type" "OPENSHELL_EC2_INSTANCE_TYPE"
                default_config.default_instance;
          subnet_id =
              string_of process flags "subnet-id" "OPENSHELL_EC2_SUBNET_ID"
                default_config.subnet_id;
          security_group_id =
              string_of process flags "security-group-id" "OPENSHELL_EC2_SECURITY_GROUP_ID"
                default_config.security_group_id;
          key_name =
              string_of process flags "key-name" "OPENSHELL_EC2_KEY_NAME" default_config.key_name;
          gateway_endpoint =
              string_of process flags "gateway-endpoint" "OPENSHELL_GATEWAY_ENDPOINT"
                default_config.transport.gateway_endpoint;
          gateway_ca = string_of process flags "gateway-ca-cert" "OPENSHELL_GATEWAY_CA_CERT" "";
          client_cert =
              string_of process flags "gateway-client-cert" "OPENSHELL_GATEWAY_CLIENT_CERT" "";
          client_key =
              string_of process flags "gateway-client-key" "OPENSHELL_GATEWAY_CLIENT_KEY" "";
          insecure = insecure;
          gateway_id =
              string_of process flags "gateway-id" "OPENSHELL_GATEWAY_ID" default_config.gateway_id;
          region = string_of process flags "region" "AWS_REGION" default_config.region;
          poll_interval = poll_interval;
          spot = spot;
          disk_size_gb = disk_size_gb;
          max_instances = max_instances;
          max_instance_age = max_instance_age;
        },
        join (e₁ ∷ e₂ ∷ e₃ ∷ e₄ ∷ e₅ ∷ e₆ ∷ []),
      )

-- The configuration of the driver: the disk's size becomes an int32.
unfoldable pub config_of : Variables → TransportConfig → Config
unfolding to_int32
config_of v transport = record {
  ami_id = v.ami_id;
  default_instance = v.instance_type;
  subnet_id = v.subnet_id;
  security_group_id = v.security_group_id;
  key_name = v.key_name;
  transport = transport;
  gateway_id = v.gateway_id;
  region = v.region;
  poll_interval = v.poll_interval;
  use_spot = v.spot;
  disk_size_gb = to_int32 v.disk_size_gb;
  max_instances = v.max_instances;
  max_instance_age = v.max_instance_age;
}

unfoldable pub options_of : Variables → TransportConfig → Options
options_of v transport = record {
  socket_path = v.socket_path;
  bind_address = v.bind_address;
  insecure_gateway_transport = transport.insecure;
  shutdown_timeout = pos 0;
  max_recv_msg_size = pos 0;
  max_concurrent_rpcs = pos 0;
}

module _ (matches : String → String → Bool) (lib : Library) (process : Process) where
  unfoldable pub checked : AppConfig → List ConfigError → Result ConfigFailure AppConfig
  checked app [] = ok app
  checked app (e ∷ es) = err (bad_config (e ∷ es))

  unfoldable pub with_transport :
      Variables → Result LoadError TransportConfig → Result ConfigFailure AppConfig
  unfolding checked config_of options_of
  with_transport v (err e) = err (bad_transport e)
  with_transport v (ok transport) =
      let config = config_of v transport in
      checked (record { driver = config; server = options_of v transport })
        (validate matches lib config)

  unfoldable pub with_variables : Variables × List BadValue → Result ConfigFailure AppConfig
  unfolding with_transport
  with_variables (v, e ∷ es) = err (bad_values (e ∷ es))
  with_variables (v, []) = with_transport v (
      load_transport_config lib v.gateway_endpoint v.gateway_ca v.client_cert v.client_key
        v.insecure)

  unfoldable pub with_flags : Result String Flags → Result ConfigFailure AppConfig
  unfolding with_variables
  with_flags (err e) = err (bad_flags e)
  with_flags (ok flags) = with_variables (variables process flags)

  unfoldable pub load_config : List String → Result ConfigFailure AppConfig
  unfolding with_flags
  load_config args = with_flags (process.parse_flags args)
