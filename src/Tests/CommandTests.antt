-- ===== src/Tests/CommandTests.antt =====
-- Starts of the drivers whose settings stand in the environment.
use openshell_drivers_contri.Prelude.{
  ◌≡◌, refl, String, true, none, some, [], ◌==◌, ◌||◌, if◌then◌else◌, ◌∷◌,
}
use openshell_drivers_contri.Prelude.Int.{pos}
use openshell_drivers_contri.Prelude.Result.{Result, ok}
use openshell_drivers_contri.Text.{contains_any}
use openshell_drivers_contri.Bootstrap.Load.{
  load_transport_config, read_required_file, read_result, all_or_errors, validated, as_load_error,
}
use openshell_drivers_contri.Bootstrap.Transport.{
  validate_url, validate_certificates, refuse_if, port_is_bad, want_scheme, parse_chain, is_empty,
  or_error,
}
use openshell_drivers_contri.Bootstrap.Transport as Transport
use openshell_drivers_contri.Ec2.Config.{default_config}
use openshell_drivers_contri.Ec2.Settings.{validate}
use openshell_drivers_contri.Commands.Flags.{Flags, Process, apply, read_or, apply_string, to_int32}
use openshell_drivers_contri.Commands.DriverEc2.{
  AppConfig, variables, config_of, options_of, checked, with_transport, with_variables, with_flags,
  load_config,
}
use openshell_drivers_contri.Commands.DriverKubevirt as Vm
use openshell_drivers_contri.Kubevirt.Config as Vm_config
use openshell_drivers_contri.Kubevirt.Settings as Vm_settings
use openshell_drivers_contri.Commands.Started.{IsConfigured, load_config-IsConfigured}
use openshell_drivers_contri.Tests.Transports.{toy_library, secure_transport}

abbrev unset_flags : Flags
unset_flags = record {
  string_flag = λ _. none;
  bool_flag = λ _. none;
  int_flag = λ _. none;
  duration_flag = λ _. none;
}

abbrev filled_process : Process
filled_process = record {
  parse_flags = λ _. ok unset_flags;
  parse_duration = λ _. none;
  atoi = λ _. some (pos 50);
  parse_bool = λ _. none;
  getenv = λ env.
      if env == "OPENSHELL_GATEWAY_ENDPOINT"
      then "https://gateway:8443"
      else if env == "OPENSHELL_INSECURE" || env == "OPENSHELL_EC2_SPOT"
      then ""
      else if env == "OPENSHELL_EC2_POLL_INTERVAL" || env == "OPENSHELL_EC2_MAX_INSTANCE_AGE"
      then ""
      else "value";
}

abbrev loaded_app : AppConfig
loaded_app = record {
  driver = config_of (variables filled_process unset_flags).0 secure_transport;
  server = options_of (variables filled_process unset_flags).0 secure_transport;
}

load_config-IsConfigured_example :
    (flags : Flags) × (◌≡◌ {A = Result String Flags} (ok unset_flags) (ok flags))
    × IsConfigured (λ _ _. true) toy_library filled_process flags loaded_app
unfolding load_config with_flags with_variables with_transport checked variables apply read_or
    apply_string config_of options_of to_int32 load_transport_config read_required_file read_result
    all_or_errors validated as_load_error default_config validate contains_any Transport.validate
    validate_url validate_certificates refuse_if port_is_bad want_scheme parse_chain is_empty
    or_error
load_config-IsConfigured_example =
    load_config-IsConfigured (λ _ _. true) toy_library filled_process [] loaded_app refl

-- Of the flags only the label is set.
abbrev label_flag : Flags
label_flag = record unset_flags {
  string_flag = λ name. if name == "storage-label" then some "team=green" else none;
}

abbrev labelled_process : Process
labelled_process = record filled_process {
  parse_flags = λ _. ok label_flag;
  getenv = λ env.
      if env == "OPENSHELL_KUBEVIRT_DISK_SIZE"
      then "100Gi"
      else if env == "OPENSHELL_KUBEVIRT_POLL_INTERVAL"
          || env == "OPENSHELL_KUBEVIRT_MAX_INSTANCE_AGE"
      then ""
      else filled_process.getenv env;
}

abbrev labelled_app : Vm.AppConfig
labelled_app =
    let v = (Vm.variables labelled_process label_flag).0 in
    Vm.app_of v (Vm.config_of v secure_transport (("team", "green") ∷ []) [])
