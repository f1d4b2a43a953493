-- ===== src/Tests/KubevirtTests.antt =====
-- The KubeVirt driver at a concrete sandbox, provider and world.
use openshell_drivers_contri.Prelude.{
  ℕ, ◌*◌, ◌≤◌, ◌≡◌, min, refl, String, true, false, none, some, [], ◌∷◌, arith, ◌==◌, if◌then◌else◌,
  All,
}
use openshell_drivers_contri.Prelude.Assoc.{lookup, insert, erase}
use openshell_drivers_contri.Prelude.Int.{pos}
use openshell_drivers_contri.Prelude.Result.{ok, err}
use openshell_drivers_contri.Text.{has_control, cut_suffix}
use openshell_drivers_contri.Quantity.Parse.{validate_requirements, parse_cpu, parse_memory}
use openshell_drivers_contri.Safeguards.Records.{
  Limits, Record, Time, zero_record, clone_record, effective_max_instances, second, minute,
}
use openshell_drivers_contri.Safeguards.Registry.{
  new_registry, reserve_with_lease, count, add_one_uint64, update_if, rollback,
}
use openshell_drivers_contri.Sizing.Select.{less, demand, first_fit, choose, asks_nothing}
use openshell_drivers_contri.Service.{World}
use openshell_drivers_contri.Service.Rollback.{rolling_back}
use openshell_drivers_contri.Service.Grouping.{has_text}
use openshell_drivers_contri.Service.Actions.{Platform, try_reserve_with_lease}
use openshell_drivers_contri.Bootstrap.Transport.{
  validate_url, refuse_if, port_is_bad, want_scheme, or_error,
}
use openshell_drivers_contri.Bootstrap.Transport as Transport
use openshell_drivers_contri.Bootstrap.Render.{
  render_security_block, check_params, check_value, as_render_error, files, env, tls_env,
  join_lines, block_or_error,
}
use openshell_drivers_contri.Ec2.Validate.{validate_text, validate_log_level, validate_resources}
use openshell_drivers_contri.Kubevirt.Config.{Config, default_config}
use openshell_drivers_contri.Kubevirt.Settings.{Naming, gib}
use openshell_drivers_contri.Kubevirt.Provider.{VmInstance, Failure, VmProvider}
use openshell_drivers_contri.Kubevirt.Catalog.{instance_types, select_instance_type}
use openshell_drivers_contri.Kubevirt.CloudInit.{
  CloudInitParams, cloud_init, params_of, render_cloud_init,
}
use openshell_drivers_contri.Kubevirt.Validate.{
  validate_sandbox, validate_spec, validate_template, unsupported_fields,
}
use openshell_drivers_contri.Kubevirt.Conditions.{provider_error}
use openshell_drivers_contri.Kubevirt.Resolve.{mark_first, may_be_marked}
use openshell_drivers_contri.Kubevirt.Create.{
  pending_record, launched_record, may_commit, filled_in, commit, commit_named, launch_spec,
  launch_with, cloud_init_params, launch_reserved, reserve_and_launch, create_valid, create_sandbox,
  could_not_commit, expiry,
}
use openshell_drivers_contri.Kubevirt.Creation.{create_vm-records}
use openshell_drivers_contri.Kubevirt.Commitment.{IsCommitted, create_vm-IsCommitted}
use openshell_drivers_contri.Kubevirt.Marking.{commit-marked}
use openshell_drivers_contri.Kubevirt.Observe.{choose_keeper}
use openshell_drivers_contri.Kubevirt.Keeping.{IsSplit, IsCompleted, choose_keeper-running}
use openshell_drivers_contri.Kubevirt.Sweep.{miss, sweep}
use openshell_drivers_contri.Kubevirt.Absence.{miss-absent}
use openshell_drivers_contri.Kubevirt.Reservations.{sweep-in_flight}
use openshell_drivers_contri.Kubevirt.Watcher.{retry_delay}
use openshell_drivers_contri.Kubevirt.Backoff.{retry_delay-bounds}
use openshell_drivers_contri.Ec2.Validate as Ec2
use openshell_drivers_contri.Tests.DriverTests.{plain_box, launching_box, launching}
use openshell_drivers_contri.Kubevirt.Objects.{VmObject, normalize_vm, normalize_vm-named}
use openshell_drivers_contri.Tests.Fixtures.{
  whole_floats, insertion_sorter, read_number, max_of, sort_specs,
}
use openshell_drivers_contri.Tests.Transports.{toy_library, plain_transport}

abbrev pub naming : Naming
naming = record {
  is_dns_label = λ _. true;
  is_dns_subdomain = λ _. true;
  parse_quantity = λ s. if s == "100Gi" then some (pos (100 * gib)) else none;
}

abbrev pub config : Config
config = record default_config {
  storage_class = "encrypted";
  transport = plain_transport;
  gateway_id = "gateway";
}

abbrev pub platform : Platform
platform = record {
  floats = whole_floats;
  sorter = insertion_sorter;
  duration_text = λ _. "8h";
  sha256_hex = λ s. s;
  library = toy_library;
}

abbrev pub calendar : Time → String
calendar time = "later"

abbrev machine_of : String → String → VmInstance
machine_of name state = record {
  vm_name = name;
  sandbox_id = "box";
  name = "my-box";
  namespace = "";
  workspace = "";
  state = state;
  vmi_phase = "";
  ip = "";
  created_at = 7;
}

abbrev pub throttled : Failure
throttled = record {
  err_canceled = false;
  ctx_canceled = false;
  err_deadline = false;
  ctx_deadline = false;
  is_unauthorized = false;
  is_forbidden = false;
  is_too_many_requests = true;
  is_timeout = false;
  is_server_timeout = false;
  is_service_unavailable = false;
  is_not_found = false;
  is_already_exists = false;
  is_conflict = false;
  is_invalid = false;
}

abbrev pub willing : VmProvider (Unit {0})
willing = record {
  check_ready = λ w. (ok tt, w);
  launch = λ _ w. (ok (machine_of "vm-1" ""), w);
  list = λ _ w. (ok [], w);
  stop = λ _ w. (ok tt, w);
  terminate = λ _ w. (ok tt, w);
}

abbrev refusing : VmProvider (Unit {0})
refusing = record willing { launch = λ _ w. (err throttled, w) }

abbrev limits : Limits
limits = record { max_instances = pos 1; max_instance_age = pos 0 }

abbrev pub start : World (Unit {0})
start = record { registry = new_registry limits; cloud = tt; clock = 100 }

abbrev cloud_params : CloudInitParams
cloud_params = record {
  transport = plain_transport;
  sandbox_id = "box";
  sandbox_token = "secret";
  log_level = "info";
  max_lifetime = "8h";
  expires_at = 9;
}

abbrev rendered : String
rendered = elim (render_cloud_init toy_library calendar cloud_params) [ ok s ↦ s | _ ↦ "" ]

create_vm-records_example :
    (create_sandbox platform calendar refusing config (some plain_box) start).1.registry.records
    ≡ []
unfolding create_sandbox validate_sandbox validate_text validate_spec validate_template
    Ec2.validate_template validate_log_level validate_resources validate_requirements parse_cpu
    parse_memory read_number unsupported_fields select_instance_type asks_nothing choose demand
    first_fit sort_specs instance_types less max_of try_reserve_with_lease reserve_with_lease
    new_registry lookup insert erase count effective_max_instances add_one_uint64 rolling_back
    rollback clone_record pending_record launch_reserved launch_with launch_spec cloud_init_params
    commit commit_named filled_in may_commit update_if launched_record render_cloud_init expiry
    reserve_and_launch create_valid default_config block_or_error cloud_init params_of
    render_security_block check_params check_value as_render_error files env tls_env join_lines
    Transport.validate validate_url refuse_if port_is_bad want_scheme or_error has_control
    cut_suffix
create_vm-records_example =
    create_vm-records platform calendar refusing config (some plain_box) start
      (create_sandbox platform calendar refusing config (some plain_box) start).1
      (provider_error throttled) (λ _ _. refl) refl

create_vm-IsCommitted_example :
    IsCommitted platform calendar willing config plain_box
      (create_sandbox platform calendar willing config (some plain_box) start).1
unfolding create_sandbox validate_sandbox validate_text validate_spec validate_template
    Ec2.validate_template validate_log_level validate_resources validate_requirements parse_cpu
    parse_memory read_number unsupported_fields select_instance_type asks_nothing choose demand
    first_fit sort_specs instance_types less max_of try_reserve_with_lease reserve_with_lease
    new_registry lookup insert erase count effective_max_instances add_one_uint64 rolling_back
    rollback clone_record pending_record launch_reserved launch_with launch_spec cloud_init_params
    commit commit_named filled_in may_commit update_if launched_record render_cloud_init expiry
    reserve_and_launch create_valid default_config block_or_error cloud_init params_of
    render_security_block check_params check_value as_render_error files env tls_env join_lines
    Transport.validate validate_url refuse_if port_is_bad want_scheme or_error has_control
    cut_suffix
create_vm-IsCommitted_example =
    create_vm-IsCommitted platform calendar willing config plain_box start
      (create_sandbox platform calendar willing config (some plain_box) start).1 refl

commit-marked_example :
    (commit platform calendar willing config plain_box 1 3
        (machine_of "vm-1" "Running")
        (mark_first (launching_box ∷ []) launching).1
      ≡ (err could_not_commit, (mark_first (launching_box ∷ []) launching).1))
    × ((marked_rec : Record) × (lookup "box"
            (mark_first (launching_box ∷ []) launching).1.registry.records
          ≡ some marked_rec)
        × (marked_rec.state ≡ "delete-requested"))
unfolding lookup may_be_marked clone_record
commit-marked_example =
    commit-marked launching_box [] launching platform calendar willing config plain_box
      launching_box 1 3 (machine_of "vm-1" "Running") refl refl refl

choose_keeper-running_example :
    IsSplit
      (machine_of "vm-1" "Failed" ∷ machine_of "vm-2" "Running" ∷ [])
      (choose_keeper (machine_of "vm-1" "Failed") (machine_of "vm-2" "Running" ∷ []))
    × (IsCompleted (choose_keeper (machine_of "vm-1" "Failed") (machine_of "vm-2" "Running" ∷ [])).0
        → All IsCompleted (machine_of "vm-1" "Failed" ∷ machine_of "vm-2" "Running" ∷ []))
choose_keeper-running_example =
    choose_keeper-running (machine_of "vm-1" "Failed") (machine_of "vm-2" "Running" ∷ [])

abbrev tracked_box : Record
tracked_box = record zero_record { sandbox_id = "box"; instance_id = "vm-1"; missing_polls = 2 }

abbrev tracking : World (Unit {0})
tracking = record start {
  registry = record (new_registry limits) { records = ("box", tracked_box) ∷ [] };
}

miss-absent_example : lookup "box" (miss willing [] tracked_box tracking).registry.records ≡ none
unfolding has_text lookup
miss-absent_example = miss-absent willing [] tracked_box tracking "box" (λ _ _. refl) refl refl refl

sweep-in_flight_example :
    lookup "box" (sweep willing [] launching).registry.records ≡ some launching_box
unfolding lookup
sweep-in_flight_example =
    sweep-in_flight willing [] launching "box" launching_box (λ _ _. refl) refl refl

retry_delay-bounds_example :
    (d : ℕ) × (retry_delay (λ n. 0) (pos (15 * second)) 3 ≡ pos d)
    × (min (2 * (15 * second)) minute ≤ d)
    × (d ≤ 75 * second)
retry_delay-bounds_example =
    retry_delay-bounds (λ n. 0) (15 * second) 3 (λ n positive. positive) (omega arith) (omega arith)

abbrev pub named_vm : VmObject
named_vm = record {
  name = "vm-1";
  uid = "u";
  labels = [];
  annotations = [];
  creation_timestamp = 7;
  being_deleted = false;
  printable_status = "";
  run_strategy = "Halted";
}

normalize_vm-named_example :
    (((normalize_vm (λ _. none) named_vm none).sandbox_id == "") ≡ false)
    × (((normalize_vm (λ _. none) named_vm none).name == "") ≡ false)
    × (((normalize_vm (λ _. none) named_vm none).state == "") ≡ false)
normalize_vm-named_example = normalize_vm-named (λ _. none) named_vm none refl
