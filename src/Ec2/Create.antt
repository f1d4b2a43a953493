-- ===== src/Ec2/Create.antt =====
-- `ValidateSandboxCreate` and `CreateSandbox` of drivers/ec2/driver.go.
use Prim.Native.String.{◌++◌ as concat}
use openshell_drivers_contri.Prelude.{String, Option, none, some, [], ◌∷◌, ◌==◌, if◌then◌else◌}
use openshell_drivers_contri.Prelude.Result.{ok, err}
use openshell_drivers_contri.Proto.Messages.{DriverSandbox, DriverSandboxSpec}
use openshell_drivers_contri.Proto.Getters.{
  get_log_level, get_sandbox_token, get_template, get_resources,
}
use openshell_drivers_contri.Safeguards.Records.{Time, Record}
use openshell_drivers_contri.Safeguards.Registry as Registry
use openshell_drivers_contri.Safeguards.Registry.{err_capacity}
use openshell_drivers_contri.Service.{
  Status, World, Exec, lift, now, ◌>>=◌, ◌>>◌, literal, internal,
}
use openshell_drivers_contri.Service.Rollback.{rolling_back}
use openshell_drivers_contri.Ec2.Config.{Config}
use openshell_drivers_contri.Service.Actions.{
  max_lifetime, Platform, status, invalid_status, sizing_status, bootstrap_status, try_reserve,
}
use openshell_drivers_contri.Ec2.Conditions.{request}
use openshell_drivers_contri.Ec2.UserData.{UserDataParams, render_user_data}
use openshell_drivers_contri.Ec2.Provider.{LaunchSpec, Instance, Provider}
use openshell_drivers_contri.Ec2.Catalog.{select_instance_type}
use openshell_drivers_contri.Ec2.Validate.{validate_sandbox}
use openshell_drivers_contri.Ec2.Conditions.{sandbox_status}

-- The reservation that `CreateSandbox` makes.
unfoldable pub pending_record : DriverSandbox → Time → Record
pending_record sb created_at = record {
  sandbox_id = sb.id;
  name = sb.name;
  namespace = sb.namespace;
  workspace = sb.workspace;
  instance_id = "";
  state = "launching";
  created_at = created_at;
  missing_polls = 0;
  spec = sb.spec;
  last_status = some (sandbox_status sb.name "" "pending" created_at);
  lease = 0;
}

-- What the record of a launched instance becomes.
unfoldable pub launched_record : Instance → Time → Record → Record
launched_record i created_at r = record r {
  instance_id = i.id;
  state = i.state;
  created_at = i.created_at;
  last_status = some (sandbox_status r.name i.id i.state created_at);
}

unfoldable pub could_not_commit : Status
could_not_commit =
    status internal (literal "launched instance could not be committed; cleanup requested")

abbrev log_level_or_info : String → String
log_level_or_info level = if level == "" then "info" else level

-- if instance.State == "" { instance.State = "pending" }
abbrev pub or_pending : Instance → Instance
or_pending i = record i { state = if i.state == "" then "pending" else i.state }

module _ (platform : Platform) {S : Type 0} (provider : Provider S) (config : Config) where
  open platform use {floats, sorter, duration_text, sha256_hex, library}

  unfoldable pub validate_sandbox_create : Option DriverSandbox → Exec S (Unit {0})
  validate_sandbox_create sb = lift invalid_status (validate_sandbox floats sb)

  unfoldable pub client_token : DriverSandbox → Option DriverSandboxSpec → String
  client_token sb spec =
      sha256_hex (
        concat config.gateway_id
          (concat "\0" (concat sb.id (concat "\0" (get_sandbox_token spec)))))

  unfoldable pub launch_spec : DriverSandbox → String → String → Time → String → LaunchSpec
  unfolding client_token
  launch_spec sb instance_type user_data created_at lifetime = record {
    sandbox_id = sb.id;
    name = sb.name;
    namespace = sb.namespace;
    workspace = sb.workspace;
    gateway_id = config.gateway_id;
    image_id = config.ami_id;
    instance_type = instance_type;
    subnet_id = config.subnet_id;
    security_group_id = config.security_group_id;
    key_name = config.key_name;
    user_data = user_data;
    client_token = client_token sb sb.spec;
    use_spot = config.use_spot;
    disk_size_gb = config.disk_size_gb;
    created_at = created_at;
    max_lifetime = lifetime;
  }

  -- The update that commits the instance; without the record the instance is terminated again, and
  -- an error of that is only logged.
  unfoldable pub commit : DriverSandbox → Time → Instance → Exec S (Unit {0})
  unfolding launched_record could_not_commit
  commit sb created_at i w =
      let (r, updated, found) = Registry.update w.registry sb.id (launched_record i created_at) in
      let w' : World S = record w { registry = r } in
      if found
      then (ok tt, record w' { registry = Registry.broadcast_sandbox r updated })
      else (err could_not_commit, (provider.terminate (i.id ∷ []) w').1)

  unfoldable pub user_data_params : DriverSandbox → String → UserDataParams
  user_data_params sb lifetime = record {
    transport = config.transport;
    sandbox_id = sb.id;
    sandbox_token = get_sandbox_token sb.spec;
    log_level = log_level_or_info (get_log_level sb.spec);
    max_lifetime = lifetime;
  }

  unfoldable pub launch_with : DriverSandbox → String → Time → String → String → Exec S (Unit {0})
  unfolding launch_spec
  launch_with sb instance_type created_at lifetime user_data = do
    i ← request (provider.launch (launch_spec sb instance_type user_data created_at lifetime))
    commit sb created_at (or_pending i)

  -- From the reservation on.
  unfoldable pub launch_reserved : DriverSandbox → String → Time → Exec S (Unit {0})
  unfolding user_data_params launch_with
  launch_reserved sb instance_type created_at = do
    lifetime ← max_lifetime duration_text
    user_data ← lift bootstrap_status (render_user_data library (user_data_params sb lifetime))
    launch_with sb instance_type created_at lifetime user_data

  unfoldable pub create_valid : DriverSandbox → Exec S (Unit {0})
  unfolding pending_record launch_reserved commit
  create_valid sb = do
    instance_type ← lift sizing_status (
        select_instance_type floats sorter (get_resources (get_template sb.spec))
          config.default_instance)
    created_at ← now
    try_reserve (pending_record sb created_at)
    rolling_back sb.id (launch_reserved sb instance_type created_at)

  -- `validateSandbox` refuses a nil sandbox.
  unfoldable pub create_sandbox : Option DriverSandbox → Exec S (Unit {0})
  unfolding create_valid
  create_sandbox none = lift invalid_status (validate_sandbox floats none)
  create_sandbox (some sb) = do
    lift invalid_status (validate_sandbox floats (some sb))
    create_valid sb
