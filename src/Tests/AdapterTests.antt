-- ===== src/Tests/AdapterTests.antt =====
-- The EC2 driver over the AWS adapter, with a small API.
use openshell_drivers_contri.Prelude.{◌≡◌, ◌==◌, refl, false, none, some, [], ◌∷◌}
use openshell_drivers_contri.Prelude.Assoc.{lookup, insert, erase}
use openshell_drivers_contri.Prelude.Result.{ok}
use openshell_drivers_contri.Text.{has_control}
use openshell_drivers_contri.Quantity.Parse.{validate_requirements, parse_cpu, parse_memory}
use openshell_drivers_contri.Safeguards.Records.{Record, clone_record, effective_max_instances}
use openshell_drivers_contri.Safeguards.Registry.{
  new_registry, reserve, reserve_with_lease, count, add_one_uint64, update, update_if, rollback,
}
use openshell_drivers_contri.Sizing.Select.{less, demand, first_fit, choose, asks_nothing}
use openshell_drivers_contri.Service.Rollback.{rolling_back}
use openshell_drivers_contri.Service.Actions.{try_reserve}
use openshell_drivers_contri.Bootstrap.Transport.{
  validate_url, refuse_if, port_is_bad, want_scheme, or_error,
}
use openshell_drivers_contri.Bootstrap.Transport as Transport
use openshell_drivers_contri.Bootstrap.Render.{
  render_security_block, check_params, check_value, as_render_error, files, env, tls_env,
  join_lines, block_or_error,
}
use openshell_drivers_contri.Ec2.UserData.{cloud_init, params_of, render_user_data}
use openshell_drivers_contri.Ec2.Catalog.{instance_types, select_instance_type}
use openshell_drivers_contri.Ec2.Validate.{
  validate_sandbox, validate_text, validate_spec, validate_template, validate_log_level,
  validate_resources,
}
use openshell_drivers_contri.Ec2.Create.{
  create_sandbox, pending_record, launch_reserved, launch_with, launch_spec, commit,
  launched_record,
}
use openshell_drivers_contri.Ec2.Adapter.{
  RawInstance, Ec2Api, aws_provider, launch, launch_input, after_run, launched, normalize_instance,
  tag_map, tag_value, parsed_time, filled_in,
}
use openshell_drivers_contri.Ec2.Identity.{create_sandbox-identified}
use openshell_drivers_contri.Tests.Ec2Tests.{platform, config, small_box, start}
use openshell_drivers_contri.Tests.Fixtures.{read_number, sort_specs}

abbrev answered : RawInstance
answered = record { instance_id = "i-1"; tags = []; launch_time = 7; state = some "pending" }

abbrev api : Ec2Api (Unit {0})
api = record {
  format_time = λ _. "now";
  parse_time = λ _. none;
  context_state = λ _. (false, false);
  run_instances = λ _ w. (ok (some (answered ∷ [])), w);
  terminate_instances = λ _ w. (ok tt, w);
  stop_instances = λ _ w. (ok tt, w);
  describe_pages = λ _ w. ([], w);
}

create_sandbox-identified_example :
    (rec : Record) × (lookup "box"
        (create_sandbox platform
          (aws_provider api)
          config
          (some small_box)
          start).1.registry.records
      ≡ some rec)
    × ((rec.instance_id == "") ≡ false)
unfolding create_sandbox validate_sandbox validate_text validate_spec validate_template
    validate_log_level validate_resources validate_requirements parse_cpu parse_memory read_number
    select_instance_type asks_nothing choose demand first_fit sort_specs instance_types less
    try_reserve reserve reserve_with_lease new_registry lookup insert erase count
    effective_max_instances add_one_uint64 rolling_back rollback clone_record pending_record
    launch_reserved launch_with launch_spec commit update update_if launched_record render_user_data
    block_or_error cloud_init params_of render_security_block check_params check_value
    as_render_error files env tls_env join_lines Transport.validate validate_url refuse_if
    port_is_bad want_scheme or_error has_control aws_provider launch launch_input after_run launched
    normalize_instance tag_map tag_value parsed_time filled_in
create_sandbox-identified_example =
    create_sandbox-identified api platform config small_box start
      (create_sandbox platform (aws_provider api) config (some small_box) start).1 refl
