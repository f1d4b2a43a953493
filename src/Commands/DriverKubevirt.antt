-- ===== src/Commands/DriverKubevirt.antt =====
-- `loadConfig` of cmd/openshell-driver-kubevirt/main.go, whose settings are read as those of the EC2
-- driver's command.
use openshell_drivers_contri.Prelude.{
  String, Bool, false, Option, none, some, List, [], ◌∷◌, join, ◌==◌, if◌then◌else◌,
}
use openshell_drivers_contri.Prelude.Int.{ℤ, pos}
use openshell_drivers_contri.Prelude.Result.{Result, ok, err, ◌>>=◌}
use openshell_drivers_contri.Text.{cut_at}
use openshell_drivers_contri.Bootstrap.Config.{TransportConfig}
use openshell_drivers_contri.Bootstrap.Library.{Library}
use openshell_drivers_contri.Bootstrap.Load.{LoadError, load_transport_config}
use openshell_drivers_contri.Ec2.Settings.{ConfigError}
use openshell_drivers_contri.Kubevirt.Config.{Config, default_config}
use openshell_drivers_contri.Kubevirt.Settings.{Naming, validate}
use openshell_drivers_contri.Server.Options.{Options}
use openshell_drivers_contri.Commands.Flags.{
  Flags, Process, BadValue, apply, apply_string, string_of, bool_of, int_of, duration_of,
}

pub record AppConfig : Type 0 where
  pub driver : Config
  pub server : Options
  pub kubeconfig : String

-- A pair that is none is named with its flag.
pub data ConfigFailure : Type 0 where
  bad_flags : String → ConfigFailure
  bad_values : List BadValue → ConfigFailure
  bad_transport : LoadError → ConfigFailure
  not_key_value : String → String → ConfigFailure
  bad_config : List ConfigError → ConfigFailure

-- The variables of `loadConfig` after the environment has been applied.
pub record Variables : Type 0 where
  pub socket_path : String
  pub bind_address : String
  pub namespace : String
  pub boot_source : String
  pub boot_source_namespace : String
  pub default_instance_type : String
  pub default_preference : String
  pub storage_class : String
  pub gateway_endpoint : String
  pub gateway_ca : String
  pub client_cert : String
  pub client_key : String
  pub insecure : Bool
  pub gateway_id : String
  pub disk_size : String
  pub poll_interval : ℤ
  pub max_instances : ℤ
  pub max_instance_age : ℤ
  pub storage_label : String
  pub storage_annotation : String
  pub kubeconfig : String

-- The variables, and `errs`; no variable of the environment holds a label or an annotation.
unfoldable pub variables : Process → Flags → Variables × List BadValue
unfolding apply apply_string default_config
variables process flags =
    let (insecure, e₁) = bool_of process flags "insecure" "OPENSHELL_INSECURE" false in
    let (poll_interval, e₂) =
      duration_of process flags "poll-interval" "OPENSHELL_KUBEVIRT_POLL_INTERVAL"
        default_config.poll_interval in
    let (max_instances, e₃) =
      int_of process flags "max-instances" "OPENSHELL_KUBEVIRT_MAX_INSTANCES"
        default_config.max_instances in
    let (max_instance_age, e₄) =
      duration_of process flags "max-instance-age" "OPENSHELL_KUBEVIRT_MAX_INSTANCE_AGE"
        default_config.max_instance_age in
    let text = string_of process flags in
    (
      record {
        socket_path = text "socket" "OPENSHELL_DRIVER_SOCKET" "/run/openshell/kubevirt.sock";
        bind_address = text "bind-address" "OPENSHELL_DRIVER_BIND" "";
        namespace = text "namespace" "OPENSHELL_KUBEVIRT_NAMESPACE" default_config.namespace;
        boot_source =
            text "boot-source" "OPENSHELL_KUBEVIRT_BOOT_SOURCE" default_config.boot_source;
        boot_source_namespace =
            text "boot-source-namespace" "OPENSHELL_KUBEVIRT_BOOT_SOURCE_NAMESPACE"
              default_config.boot_source_namespace;
        default_instance_type =
            text "default-instancetype" "OPENSHELL_KUBEVIRT_DEFAULT_INSTANCETYPE"
              default_config.default_instance_type;
        default_preference =
            text "default-preference" "OPENSHELL_KUBEVIRT_DEFAULT_PREFERENCE"
              default_config.default_preference;
        storage_class =
            text "storage-class" "OPENSHELL_KUBEVIRT_STORAGE_CLASS" default_config.storage_class;
        gateway_endpoint =
            text "gateway-endpoint" "OPENSHELL_GATEWAY_ENDPOINT"
              default_config.transport.gateway_endpoint;
        gateway_ca = text "gateway-ca-cert" "OPENSHELL_GATEWAY_CA_CERT" "";
        client_cert = text "gateway-client-cert" "OPENSHELL_GATEWAY_CLIENT_CERT" "";
        client_key = text "gateway-client-key" "OPENSHELL_GATEWAY_CLIENT_KEY" "";
        insecure = insecure;
        gateway_id = text "gateway-id" "OPENSHELL_GATEWAY_ID" default_config.gateway_id;
        disk_size = text "disk-size" "OPENSHELL_KUBEVIRT_DISK_SIZE" default_config.disk_size;
        poll_interval = poll_interval;
        max_instances = max_instances;
        max_instance_age = max_instance_age;
        storage_label = apply_string (flags.string_flag "storage-label") "" "";
        storage_annotation = apply_string (flags.string_flag "storage-annotation") "" "";
        kubeconfig = text "kubeconfig" "KUBECONFIG" "";
      },
      join (e₁ ∷ e₂ ∷ e₃ ∷ e₄ ∷ []),
    )

-- The map of one pair that a flag gives, or the empty map.
unfoldable pub pair_or_error :
    String → String → Option (String × String) → Result ConfigFailure (List (String × String))
pair_or_error flag text none = err (not_key_value flag text)
pair_or_error flag text (some pair) = ok (pair ∷ [])

unfoldable pub key_value : String → String → Result ConfigFailure (List (String × String))
unfolding pair_or_error cut_at
key_value flag text = if text == "" then ok [] else pair_or_error flag text (cut_at 0x3d text)

unfoldable pub config_of :
    Variables → TransportConfig → List (String × String) → List (String × String) → Config
config_of v transport labels annotations = record {
  namespace = v.namespace;
  boot_source = v.boot_source;
  boot_source_namespace = v.boot_source_namespace;
  default_instance_type = v.default_instance_type;
  default_preference = v.default_preference;
  storage_class = v.storage_class;
  storage_labels = labels;
  storage_annotations = annotations;
  transport = transport;
  gateway_id = v.gateway_id;
  disk_size = v.disk_size;
  poll_interval = v.poll_interval;
  max_instances = v.max_instances;
  max_instance_age = v.max_instance_age;
}

unfoldable pub app_of : Variables → Config → AppConfig
app_of v config = record {
  driver = config;
  server = record {
    socket_path = v.socket_path;
    bind_address = v.bind_address;
    insecure_gateway_transport = config.transport.insecure;
    shutdown_timeout = pos 0;
    max_recv_msg_size = pos 0;
    max_concurrent_rpcs = pos 0;
  };
  kubeconfig = v.kubeconfig;
}

module _ (naming : Naming) (lib : Library) (process : Process) where
  unfoldable pub checked : AppConfig → List ConfigError → Result ConfigFailure AppConfig
  checked app [] = ok app
  checked app (e ∷ es) = err (bad_config (e ∷ es))

  unfoldable pub with_transport :
      Variables → Result LoadError TransportConfig → Result ConfigFailure AppConfig
  unfolding checked config_of app_of key_value
  with_transport v (err e) = err (bad_transport e)
  with_transport v (ok transport) = key_value "--storage-label" v.storage_label >>= λ labels.
      key_value "--storage-annotation" v.storage_annotation >>= λ annotations.
      let config = config_of v transport labels annotations in
      checked (app_of v config) (validate naming lib config)

  unfoldable pub with_variables : Variables × List BadValue → Result ConfigFailure AppConfig
  unfolding with_transport
  with_variables (v, e ∷ es) = err (bad_values (e ∷ es))
  with_variables (v, []) = with_transport v (
      load_transport_config lib v.gateway_endpoint v.gateway_ca v.client_cert v.client_key
        v.insecure)

  unfoldable pub with_flags : Result String Flags → Result ConfigFailure AppConfig
  unfolding with_variables
  with_flags (err e) = err (bad_flags e)
  with_flags (ok flags) = with_variables (variables process flags)

  unfoldable pub load_config : List String → Result ConfigFailure AppConfig
  unfolding with_flags
  load_config args = with_flags (process.parse_flags args)
