-- ===== src/Commands/Started.antt =====
-- What the EC2 driver can rely on when cmd/openshell-driver-ec2/main.go starts it.
use openshell_drivers_contri.Prelude.{◌≡◌, refl, String, Bool, false, List, [], ◌∷◌, ◌*◌, join-nil}
use openshell_drivers_contri.Prelude.Result.{Result, ok, err}
use openshell_drivers_contri.Bootstrap.Config.{TransportConfig}
use openshell_drivers_contri.Bootstrap.Library.{Library}
use openshell_drivers_contri.Bootstrap.Load.{LoadError, load_transport_config}
use openshell_drivers_contri.Bootstrap.Loaded.{
  IsLoaded, load_transport_config-IsLoaded, load_transport_config-endpoint,
}
use openshell_drivers_contri.Ec2.Settings.{ConfigError, IsBounded, validate, validate-IsBounded}
use openshell_drivers_contri.Ec2.Config.{default_config}
use openshell_drivers_contri.Safeguards.Records.{second, hour}
use openshell_drivers_contri.Prelude.Int.{ℤ, pos}
use openshell_drivers_contri.Commands.Flags.{Flags, Process, BadValue, to_int32}
use openshell_drivers_contri.Commands.Chosen.{
  IsText, IsSwitch, IsNumber, IsDuration, apply_string-IsSetting, apply-IsSetting,
}
use openshell_drivers_contri.Commands.DriverEc2.{
  AppConfig, Variables, variables, config_of, options_of, checked, with_transport, with_variables,
  with_flags, load_config,
}

module _ (matches : String → String → Bool) (lib : Library) (process : Process) where
  -- The parts of the program's configuration, from the variables.
  record IsMade (v : Variables) (app : AppConfig) : Type 0 where
    transport : TransportConfig
    loaded : IsLoaded lib v.gateway_ca v.client_cert v.client_key transport
    on_demand : transport.insecure ≡ v.insecure
    of_endpoint : transport.gateway_endpoint ≡ v.gateway_endpoint
    of_app : app ≡ record { driver = config_of v transport; server = options_of v transport }
    bounded : IsBounded matches lib (config_of v transport)

  checked-ok :
      (app app' : AppConfig) (es : List ConfigError)
      → checked matches lib process app es ≡ ok app'
      → (app' ≡ app) × (es ≡ [])
  unfolding checked
  checked-ok app app' [] h = (cc, refl)
  checked-ok app app' (e ∷ es) h = absurd cc

  with_transport-IsMade :
      (v : Variables) (r : Result LoadError TransportConfig) (app : AppConfig)
      → load_transport_config lib v.gateway_endpoint v.gateway_ca v.client_cert v.client_key
          v.insecure
        ≡ r
      → with_transport matches lib process v r ≡ ok app
      → IsMade v app
  unfolding with_transport
  with_transport-IsMade v (err e) app loads h = absurd cc
  with_transport-IsMade v (ok t) app loads h =
      let (same, valid) = checked-ok _ app (validate matches lib (config_of v t)) h in
      let (_, demanded, files) =
        load_transport_config-IsLoaded lib v.gateway_endpoint v.gateway_ca v.client_cert
          v.client_key v.insecure t loads in
      record {
        transport = t;
        loaded = files;
        on_demand = demanded;
        of_endpoint =
            load_transport_config-endpoint lib v.gateway_endpoint v.gateway_ca v.client_cert
              v.client_key v.insecure t loads;
        of_app = same;
        bounded = validate-IsBounded matches lib (config_of v t) valid;
      }

  with_variables-IsMade :
      (r : Variables × List BadValue) (app : AppConfig)
      → with_variables matches lib process r ≡ ok app
      → (r.1 ≡ []) × IsMade r.0 app
  unfolding with_variables
  with_variables-IsMade (v, []) app h = (refl, with_transport-IsMade v _ app refl h)
  with_variables-IsMade (v, e ∷ es) app h = absurd cc

  with_flags-IsMade :
      (r : Result String Flags) (app : AppConfig)
      → with_flags matches lib process r ≡ ok app
      → (flags : Flags) × (r ≡ ok flags)
        × ((variables process flags).1 ≡ [])
        × IsMade (variables process flags).0 app
  unfolding with_flags
  with_flags-IsMade (err e) app h = absurd cc
  with_flags-IsMade (ok flags) app h =
      let (clean, configured) = with_variables-IsMade (variables process flags) app h in
      (flags, refl, clean, configured)

  module _ (flags : Flags) where
    -- Each part of the configuration is the setting of its own flag and variable, and the driver's is
    -- within its bounds. The disk's size is the int32 of its setting.
    pub record IsConfigured (app : AppConfig) : Type 0 where
      pub ca : String
      pub cert : String
      pub key : String
      pub disk : ℤ
      pub of_ca : IsText process flags "gateway-ca-cert" "OPENSHELL_GATEWAY_CA_CERT" "" ca
      pub of_cert :
          IsText process flags "gateway-client-cert" "OPENSHELL_GATEWAY_CLIENT_CERT" "" cert
      pub of_key : IsText process flags "gateway-client-key" "OPENSHELL_GATEWAY_CLIENT_KEY" "" key
      pub loaded : IsLoaded lib ca cert key app.driver.transport
      pub endpoint :
          IsText process flags "gateway-endpoint" "OPENSHELL_GATEWAY_ENDPOINT" ""
            app.driver.transport.gateway_endpoint
      pub insecure :
          IsSwitch process flags "insecure" "OPENSHELL_INSECURE" false app.driver.transport.insecure
      pub ami_id : IsText process flags "ami-id" "OPENSHELL_EC2_AMI_ID" "" app.driver.ami_id
      pub instance_type :
          IsText process flags "instance-type" "OPENSHELL_EC2_INSTANCE_TYPE" "c7i.4xlarge"
            app.driver.default_instance
      pub subnet_id :
          IsText process flags "subnet-id" "OPENSHELL_EC2_SUBNET_ID" "" app.driver.subnet_id
      pub security_group_id :
          IsText process flags "security-group-id" "OPENSHELL_EC2_SECURITY_GROUP_ID" ""
            app.driver.security_group_id
      pub key_name : IsText process flags "key-name" "OPENSHELL_EC2_KEY_NAME" "" app.driver.key_name
      pub gateway_id :
          IsText process flags "gateway-id" "OPENSHELL_GATEWAY_ID" "" app.driver.gateway_id
      pub region : IsText process flags "region" "AWS_REGION" "us-east-1" app.driver.region
      pub poll_interval :
          IsDuration process flags "poll-interval" "OPENSHELL_EC2_POLL_INTERVAL"
            (pos (15 * second))
            app.driver.poll_interval
      pub use_spot : IsSwitch process flags "spot" "OPENSHELL_EC2_SPOT" false app.driver.use_spot
      pub of_disk :
          IsNumber process flags "disk-size-gb" "OPENSHELL_EC2_DISK_SIZE_GB" (pos 200) disk
      pub disk_size_gb : app.driver.disk_size_gb ≡ to_int32 disk
      pub max_instances :
          IsNumber process flags "max-instances" "OPENSHELL_EC2_MAX_INSTANCES"
            (pos 10)
            app.driver.max_instances
      pub max_instance_age :
          IsDuration process flags "max-instance-age" "OPENSHELL_EC2_MAX_INSTANCE_AGE"
            (pos (8 * hour))
            app.driver.max_instance_age
      pub socket_path :
          IsText process flags "socket" "OPENSHELL_DRIVER_SOCKET" "/run/openshell/ec2.sock"
            app.server.socket_path
      pub bind_address :
          IsText process flags "bind-address" "OPENSHELL_DRIVER_BIND" "" app.server.bind_address
      pub same_transport : app.server.insecure_gateway_transport ≡ app.driver.transport.insecure
      pub bounded : IsBounded matches lib app.driver

    IsMade-IsConfigured :
        (app : AppConfig)
        → (variables process flags).1 ≡ []
        → IsMade (variables process flags).0 app
        → IsConfigured app
    unfolding variables config_of options_of default_config
    IsMade-IsConfigured app clean made =
        let (
          insecure_read,
          (poll_read, (spot_read, (disk_read, (instances_read, (age_read, _))))),
        ) =
          join-nil (_ ∷ _ ∷ _ ∷ _ ∷ _ ∷ _ ∷ []) clean in
        rw made.of_app (record {
          ca = _;
          cert = _;
          key = _;
          disk = _;
          of_ca = apply_string-IsSetting _ _ _;
          of_cert = apply_string-IsSetting _ _ _;
          of_key = apply_string-IsSetting _ _ _;
          loaded = made.loaded;
          endpoint = rw made.of_endpoint (apply_string-IsSetting _ _ _);
          insecure = rw made.on_demand (apply-IsSetting _ _ _ _ _ insecure_read);
          ami_id = apply_string-IsSetting _ _ _;
          instance_type = apply_string-IsSetting _ _ _;
          subnet_id = apply_string-IsSetting _ _ _;
          security_group_id = apply_string-IsSetting _ _ _;
          key_name = apply_string-IsSetting _ _ _;
          gateway_id = apply_string-IsSetting _ _ _;
          region = apply_string-IsSetting _ _ _;
          poll_interval = apply-IsSetting _ _ _ _ _ poll_read;
          use_spot = apply-IsSetting _ _ _ _ _ spot_read;
          of_disk = apply-IsSetting _ _ _ _ _ disk_read;
          disk_size_gb = refl;
          max_instances = apply-IsSetting _ _ _ _ _ instances_read;
          max_instance_age = apply-IsSetting _ _ _ _ _ age_read;
          socket_path = apply_string-IsSetting _ _ _;
          bind_address = apply_string-IsSetting _ _ _;
          same_transport = refl;
          bounded = made.bounded;
        })

  -- A command that starts has read its flags. Each part of its configuration is the value of its
  -- own flag if that is set, else that of its own variable of the environment if it is not empty,
  -- read without an error, and else the default; the disk's size keeps the low 32 bits of that.
  -- The certificates were loaded from the files that are set, or there are none and the transport
  -- is plaintext; and the configuration of the driver is within its bounds.
  pub load_config-IsConfigured :
      (args : List String) (app : AppConfig)
      → load_config matches lib process args ≡ ok app
      → (flags : Flags) × (process.parse_flags args ≡ ok flags) × IsConfigured flags app
  unfolding load_config
  load_config-IsConfigured args app h =
      let (flags, parsed, clean, made) = with_flags-IsMade (process.parse_flags args) app h in
      (flags, parsed, IsMade-IsConfigured flags app clean made)
