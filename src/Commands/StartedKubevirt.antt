-- ===== src/Commands/StartedKubevirt.antt =====
-- What the KubeVirt driver can rely on when cmd/openshell-driver-kubevirt/main.go starts it.
use openshell_drivers_contri.Prelude.{◌≡◌, String, ◌⊎◌, some, List, [], ◌∷◌, ◌*◌, false}
use openshell_drivers_contri.Prelude.Result.{Result}
use openshell_drivers_contri.Text.{cut_at}
use openshell_drivers_contri.Bootstrap.Config.{TransportConfig}
use openshell_drivers_contri.Bootstrap.Library.{Library}
use openshell_drivers_contri.Bootstrap.Loaded.{IsLoaded}
use openshell_drivers_contri.Kubevirt.Settings.{Naming, IsUsable}
use openshell_drivers_contri.Safeguards.Records.{second, hour}
use openshell_drivers_contri.Prelude.Int.{pos}
use openshell_drivers_contri.Commands.Flags.{Flags, Process}
use openshell_drivers_contri.Commands.Chosen.{IsSetting, IsText, IsSwitch, IsNumber, IsDuration}
use openshell_drivers_contri.Commands.DriverKubevirt.{AppConfig, Variables, config_of, app_of}

-- The pair that a flag gives, and none without the flag.
abbrev pub IsPair : String → List (String × String) → Type 0
IsPair text pairs =
    ((text ≡ "") × (pairs ≡ []))
    ⊎ ((pair : String × String) × (cut_at 0x3d text ≡ some pair) × (pairs ≡ pair ∷ []))

module _ (naming : Naming) (lib : Library) (process : Process) where
  -- The parts of the program's configuration, from the variables.
  record IsMade (v : Variables) (app : AppConfig) : Type 0 where
    transport : TransportConfig
    labels : List (String × String)
    annotations : List (String × String)
    of_endpoint : transport.gateway_endpoint ≡ v.gateway_endpoint
    loaded : IsLoaded lib v.gateway_ca v.client_cert v.client_key transport
    on_demand : transport.insecure ≡ v.insecure
    of_label : IsPair v.storage_label labels
    of_annotation : IsPair v.storage_annotation annotations
    of_app : app ≡ app_of v (config_of v transport labels annotations)
    usable : IsUsable naming lib (config_of v transport labels annotations)

  module _ (flags : Flags) where
    -- Each part of the configuration is the setting of its own flag and variable, and the driver can
    -- use it. A label and an annotation have a flag only.
    pub record IsReady (app : AppConfig) : Type 0 where
      pub ca : String
      pub cert : String
      pub key : String
      pub label : String
      pub annotation : String
      pub of_ca : IsText process flags "gateway-ca-cert" "OPENSHELL_GATEWAY_CA_CERT" "" ca
      pub of_cert :
          IsText process flags "gateway-client-cert" "OPENSHELL_GATEWAY_CLIENT_CERT" "" cert
      pub of_key : IsText process flags "gateway-client-key" "OPENSHELL_GATEWAY_CLIENT_KEY" "" key
      pub loaded : IsLoaded lib ca cert key app.driver.transport
      pub endpoint :
          IsText process flags "gateway-endpoint" "OPENSHELL_GATEWAY_ENDPOINT" ""
            app.driver.transport.gateway_endpoint
      pub insecure :
          IsSwitch process flags "insecure" "OPENSHELL_INSECURE" false app.driver.transport.insecure
      pub namespace :
          IsText process flags "namespace" "OPENSHELL_KUBEVIRT_NAMESPACE" "openshell"
            app.driver.namespace
      pub boot_source :
          IsText process flags "boot-source" "OPENSHELL_KUBEVIRT_BOOT_SOURCE" "fedora"
            app.driver.boot_source
      pub boot_source_namespace :
          IsText process flags "boot-source-namespace" "OPENSHELL_KUBEVIRT_BOOT_SOURCE_NAMESPACE"
            "openshift-virtualization-os-images" app.driver.boot_source_namespace
      pub default_instance_type :
          IsText process flags "default-instancetype" "OPENSHELL_KUBEVIRT_DEFAULT_INSTANCETYPE"
            "cx1.4xlarge" app.driver.default_instance_type
      pub default_preference :
          IsText process flags "default-preference" "OPENSHELL_KUBEVIRT_DEFAULT_PREFERENCE" ""
            app.driver.default_preference
      pub storage_class :
          IsText process flags "storage-class" "OPENSHELL_KUBEVIRT_STORAGE_CLASS" ""
            app.driver.storage_class
      pub gateway_id :
          IsText process flags "gateway-id" "OPENSHELL_GATEWAY_ID" "" app.driver.gateway_id
      pub disk_size :
          IsText process flags "disk-size" "OPENSHELL_KUBEVIRT_DISK_SIZE" "100Gi"
            app.driver.disk_size
      pub poll_interval :
          IsDuration process flags "poll-interval" "OPENSHELL_KUBEVIRT_POLL_INTERVAL"
            (pos (15 * second))
            app.driver.poll_interval
      pub max_instances :
          IsNumber process flags "max-instances" "OPENSHELL_KUBEVIRT_MAX_INSTANCES"
            (pos 10)
            app.driver.max_instances
      pub max_instance_age :
          IsDuration process flags "max-instance-age" "OPENSHELL_KUBEVIRT_MAX_INSTANCE_AGE"
            (pos (8 * hour))
            app.driver.max_instance_age
      pub socket_path :
          IsText process flags "socket" "OPENSHELL_DRIVER_SOCKET" "/run/openshell/kubevirt.sock"
            app.server.socket_path
      pub bind_address :
          IsText process flags "bind-address" "OPENSHELL_DRIVER_BIND" "" app.server.bind_address
      pub kubeconfig : IsText process flags "kubeconfig" "KUBECONFIG" "" app.kubeconfig
      pub of_label : IsSetting some (flags.string_flag "storage-label") "" "" label
      pub storage_labels : IsPair label app.driver.storage_labels
      pub of_annotation : IsSetting some (flags.string_flag "storage-annotation") "" "" annotation
      pub storage_annotations : IsPair annotation app.driver.storage_annotations
      pub same_transport : app.server.insecure_gateway_transport ≡ app.driver.transport.insecure
      pub usable : IsUsable naming lib app.driver
