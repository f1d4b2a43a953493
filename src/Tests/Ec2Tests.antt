-- ===== src/Tests/Ec2Tests.antt =====
-- The EC2 driver at a concrete sandbox, provider and world.
use openshell_drivers_contri.Prelude.{
  inr, ◌*◌, ◌==◌, if◌then◌else◌, ◌≡◌, refl, String, true, false, none, some, [], ◌∷◌, arith,
}
use openshell_drivers_contri.Prelude.Assoc.{lookup, insert, erase}
use openshell_drivers_contri.Prelude.Int.{pos}
use openshell_drivers_contri.Prelude.Result.{ok, err}
use openshell_drivers_contri.Proto.Messages.{
  DriverSandbox, DriverSandboxTemplate, DriverResourceRequirements,
}
use openshell_drivers_contri.Safeguards.Records.{
  Limits, Record, zero_record, clone_record, second, effective_max_instances,
}
use openshell_drivers_contri.Safeguards.Registry.{
  new_registry, reserve, reserve_with_lease, count, add_one_uint64, update, update_if, is_expired,
  rollback,
}
use openshell_drivers_contri.Sizing.Select.{less, demand, first_fit, choose, asks_nothing}
use openshell_drivers_contri.Service.{World}
use openshell_drivers_contri.Service.Rollback.{rolling_back}
use openshell_drivers_contri.Ec2.Config.{Config, default_config}
use openshell_drivers_contri.Ec2.Provider.{Instance, Failure, Provider}
use openshell_drivers_contri.Service.Actions.{Platform, try_reserve}
use openshell_drivers_contri.Ec2.Catalog.{instance_types, select_instance_type}
use openshell_drivers_contri.Ec2.Conditions.{provider_error}
use openshell_drivers_contri.Ec2.Validate.{
  validate_sandbox, validate_text, validate_spec, validate_template, validate_log_level,
  validate_resources,
}
use openshell_drivers_contri.Quantity.Parse.{validate_requirements, parse_cpu, parse_memory}
use openshell_drivers_contri.Ec2.Create.{
  create_sandbox, pending_record, launch_reserved, launch_with, commit, launched_record,
}
use openshell_drivers_contri.Ec2.Resolve.{delete_sandbox}
use openshell_drivers_contri.Ec2.Observe.{by_sandbox, recovered_record, untrusted}
use openshell_drivers_contri.Service.Grouping.{has_text}
use openshell_drivers_contri.Ec2.Poll.{reconcile, miss}
use openshell_drivers_contri.Ec2.Admission.{IsAdmitted, validate_sandbox-IsAdmitted}
use openshell_drivers_contri.Ec2.Recovery.{recovered_record-untrusted}
use openshell_drivers_contri.Ec2.Missing.{miss-unseen}
use openshell_drivers_contri.Ec2.Creation.{create_sandbox-records}
use openshell_drivers_contri.Ec2.Commitment.{IsCommitted, create_sandbox-IsCommitted}
use openshell_drivers_contri.Ec2.Deletion.{delete_sandbox-tracked, shutting_down}
use openshell_drivers_contri.Ec2.Duplicates.{reconcile-terminated}
use openshell_drivers_contri.Text.{has_control}
use openshell_drivers_contri.Bootstrap.Transport.{
  validate_url, refuse_if, port_is_bad, want_scheme, or_error,
}
use openshell_drivers_contri.Bootstrap.Transport as Transport
use openshell_drivers_contri.Bootstrap.Render.{
  render_security_block, check_params, check_value, as_render_error, files, env, tls_env,
  join_lines, block_or_error,
}
use openshell_drivers_contri.Ec2.UserData.{cloud_init, params_of, render_user_data}
use openshell_drivers_contri.Tests.Transports.{toy_library, plain_transport}
use openshell_drivers_contri.Tests.Fixtures.{
  whole_floats, insertion_sorter, read_number, sort_specs,
}

abbrev pub vast_request : DriverResourceRequirements
vast_request = record {
  cpu_request = "2";
  cpu_limit = "";
  memory_request = "16Ei";
  memory_limit = "";
}

abbrev template_of : DriverResourceRequirements → DriverSandboxTemplate
template_of resources = record {
  image = "";
  agent_socket_path = "";
  labels = [];
  environment = [];
  resources = some resources;
  platform_config = none;
  driver_config = none;
}

abbrev sandbox_of : DriverResourceRequirements → DriverSandbox
sandbox_of resources = record {
  id = "box";
  name = "my-box";
  namespace = "";
  spec = some (record {
    log_level = "debug";
    environment = [];
    template = some (template_of resources);
    resource_requirements = none;
    sandbox_token = "secret";
  });
  status = none;
  workspace = "";
}

abbrev pub small_box : DriverSandbox
small_box =
    sandbox_of
      (record { cpu_request = "2"; cpu_limit = ""; memory_request = ""; memory_limit = "" })

abbrev pub platform : Platform
platform = record {
  floats = whole_floats;
  sorter = insertion_sorter;
  duration_text = λ _. "8h";
  sha256_hex = λ s. s;
  library = toy_library;
}

abbrev pub instance_of : String → String → Instance
instance_of id state = record {
  id = id;
  sandbox_id = "box";
  name = "my-box";
  namespace = "";
  workspace = "";
  state = state;
  created_at = 7;
}

abbrev throttled : Failure
throttled = record {
  err_canceled = false;
  ctx_canceled = false;
  err_deadline = false;
  ctx_deadline = false;
  api_code = none;
}

abbrev pub willing : Provider (Unit {0})
willing = record {
  launch = λ _ w. (ok (instance_of "i-1" ""), w);
  list = λ _ w. (ok (instance_of "i-0" "terminated" ∷ []), w);
  stop = λ _ w. (ok tt, w);
  terminate = λ _ w. (ok tt, w);
}

abbrev refusing : Provider (Unit {0})
refusing = record willing { launch = λ _ w. (err throttled, w) }

abbrev pub config : Config
config = record default_config { transport = plain_transport }

abbrev limits : Limits
limits = record { max_instances = pos 1; max_instance_age = pos 0 }

abbrev pub start : World (Unit {0})
start = record { registry = new_registry limits; cloud = tt; clock = 100 }

abbrev pub tracked_box : Record
tracked_box = record zero_record { sandbox_id = "box"; instance_id = "i-1"; missing_polls = 2 }

abbrev pub tracking : World (Unit {0})
tracking = record start {
  registry = record (new_registry limits) { records = ("box", tracked_box) ∷ [] };
}

validate_sandbox-IsAdmitted_example : IsAdmitted whole_floats small_box
unfolding validate_sandbox validate_text validate_spec validate_template validate_log_level
    validate_resources validate_requirements parse_cpu parse_memory read_number
validate_sandbox-IsAdmitted_example = validate_sandbox-IsAdmitted whole_floats small_box refl

recovered_record-untrusted_example :
    is_expired 5 (5000 * second) (
      recovered_record
        (record default_config { max_instance_age = pos 5 })
        (5000 * second)
        (record (instance_of "i-1" "running") { created_at = 0 }))
    ≡ true
unfolding untrusted
recovered_record-untrusted_example =
    recovered_record-untrusted (record default_config { max_instance_age = pos 5 }) (5000 * second)
      5 (record (instance_of "i-1" "running") { created_at = 0 }) refl (omega arith) (omega arith)
      refl refl

miss-unseen_example : lookup "box" (miss [] tracked_box tracking).registry.records ≡ none
unfolding has_text lookup
miss-unseen_example = miss-unseen [] tracked_box tracking "box" refl refl refl

create_sandbox-records_example :
    (create_sandbox platform refusing config (some small_box) start).1.registry.records ≡ []
unfolding create_sandbox validate_sandbox validate_text validate_spec validate_template
    validate_log_level validate_resources validate_requirements parse_cpu parse_memory read_number
    select_instance_type asks_nothing choose demand first_fit sort_specs instance_types less
    try_reserve reserve reserve_with_lease new_registry lookup insert erase count
    effective_max_instances add_one_uint64 rolling_back rollback clone_record pending_record
    launch_reserved launch_with commit update update_if launched_record render_user_data
    block_or_error cloud_init params_of render_security_block check_params check_value
    as_render_error files env tls_env join_lines Transport.validate validate_url refuse_if
    port_is_bad want_scheme or_error has_control
create_sandbox-records_example =
    create_sandbox-records platform refusing config (some small_box) start
      (create_sandbox platform refusing config (some small_box) start).1 (provider_error throttled)
      (λ _ _. refl) refl

create_sandbox-IsCommitted_example :
    IsCommitted platform willing config small_box
      (create_sandbox platform willing config (some small_box) start).1
unfolding create_sandbox validate_sandbox validate_text validate_spec validate_template
    validate_log_level validate_resources validate_requirements parse_cpu parse_memory read_number
    select_instance_type asks_nothing choose demand first_fit sort_specs instance_types less
    try_reserve reserve reserve_with_lease new_registry lookup insert erase count
    effective_max_instances add_one_uint64 rolling_back rollback clone_record pending_record
    launch_reserved launch_with commit update update_if launched_record render_user_data
    block_or_error cloud_init params_of render_security_block check_params check_value
    as_render_error files env tls_env join_lines Transport.validate validate_url refuse_if
    port_is_bad want_scheme or_error has_control
create_sandbox-IsCommitted_example =
    create_sandbox-IsCommitted platform willing config small_box start
      (create_sandbox platform willing config (some small_box) start).1 refl

delete_sandbox-tracked_example :
    ((delete_sandbox willing default_config "box" "" tracking).0 ≡ ok true)
    × ((other : String)
        → lookup other (delete_sandbox willing default_config "box" "" tracking).1.registry.records
          ≡ (if "box" == other
              then some (clone_record (shutting_down tracked_box 100))
              else lookup other tracking.registry.records))
unfolding lookup
delete_sandbox-tracked_example =
    delete_sandbox-tracked willing default_config "box" refl tracking tracking tracked_box
      tracked_box refl refl refl refl refl

abbrev oldest_box : Instance
oldest_box = record (instance_of "i-0" "terminated") { created_at = 1 }

abbrev newer_box : Instance
newer_box = record (instance_of "i-1" "running") { created_at = 2 }

reconcile-terminated_example :
    ((reconcile willing default_config (by_sandbox (newer_box ∷ oldest_box ∷ [])) tracking).0
      ≡ ok tt)
    × (lookup "box"
          (reconcile willing default_config
            (by_sandbox (newer_box ∷ oldest_box ∷ []))
            tracking).1.registry.records
        ≡ none)
reconcile-terminated_example =
    reconcile-terminated willing default_config "box" "box" oldest_box newer_box
      (newer_box ∷ oldest_box ∷ []) tracking refl refl refl (omega arith) refl refl (inr refl) refl
