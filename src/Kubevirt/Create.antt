-- ===== src/Kubevirt/Create.antt =====
-- `ValidateSandboxCreate` and `CreateSandbox` of drivers/kubevirt/driver.go.
use Prim.Native.String.{◌++◌ as concat}
use openshell_drivers_contri.Prelude.{
  ℕ, ◌+◌, ◌-◌, String, Bool, not, ◌&&◌, Option, none, some, List, [], ◌∷◌, eqb, ◌==◌, if◌then◌else◌,
}
use openshell_drivers_contri.Prelude.Int.{ℤ, pos_part, neg_part}
use openshell_drivers_contri.Prelude.Result.{ok, err}
use openshell_drivers_contri.Proto.Messages.{DriverSandbox}
use openshell_drivers_contri.Proto.Getters.{
  get_log_level, get_sandbox_token, get_template, get_resources,
}
use openshell_drivers_contri.Safeguards.Records.{Time, Record}
use openshell_drivers_contri.Safeguards.Registry as Registry
use openshell_drivers_contri.Safeguards.Registry.{err_capacity}
use openshell_drivers_contri.Service.{
  Status, World, Exec, lift, fail, now, ◌>>=◌, ◌>>◌, literal, internal, unavailable,
}
use openshell_drivers_contri.Service.Rollback.{rolling_back}
use openshell_drivers_contri.Service.Actions.{
  Platform, status, invalid_status, sizing_status, bootstrap_status, try_reserve_with_lease,
  max_lifetime,
}
use openshell_drivers_contri.Kubevirt.Config.{Config}
use openshell_drivers_contri.Kubevirt.Provider.{VmSpec, VmInstance, VmProvider}
use openshell_drivers_contri.Kubevirt.Catalog.{select_instance_type}
use openshell_drivers_contri.Kubevirt.Validate.{validate_sandbox}
use openshell_drivers_contri.Kubevirt.CloudInit.{CloudInitParams, render_cloud_init}
use openshell_drivers_contri.Kubevirt.Conditions.{sandbox_status, request}

-- The reservation that `CreateSandbox` makes.
unfoldable pub pending_record : DriverSandbox → Time → Record
pending_record sb created_at = record {
  sandbox_id = sb.id;
  name = sb.name;
  namespace = sb.namespace;
  workspace = sb.workspace;
  instance_id = "";
  state = "launching";
  created_at = created_at;
  missing_polls = 0;
  spec = sb.spec;
  last_status = some (sandbox_status sb.name "" "Pending" created_at);
  lease = 0;
}

-- The predicate of the update with which `CreateSandbox` commits a launched machine.
unfoldable pub may_commit : ℕ → Record → Bool
may_commit lease r =
    eqb r.lease lease
    && not (r.state == "delete-requested")
    && not (r.state == "deleting")
    && not (r.state == "stopping")

-- What the record of a launched machine becomes.
unfoldable pub launched_record : VmInstance → Time → Record → Record
launched_record i created_at r = record r {
  instance_id = i.vm_name;
  state = i.state;
  created_at = i.created_at;
  last_status = some (sandbox_status r.name i.vm_name i.state created_at);
}

unfoldable pub could_not_commit : Status
could_not_commit = status internal (literal "launched VM could not be committed; cleanup requested")

abbrev log_level_or_info : String → String
log_level_or_info level = if level == "" then "info" else level

-- strings.Join with a NUL between the texts
unfoldable pub join_nul : List String → String
join_nul [] = ""
join_nul (s ∷ []) = s
join_nul (s ∷ t ∷ ts) = concat s (concat "\0" (join_nul (t ∷ ts)))

-- The defaults for what the provider left out: its state, and its creation time.
unfoldable pub filled_in : Time → VmInstance → VmInstance
filled_in created_at i = record i {
  state = if i.state == "" then "Pending" else i.state;
  created_at = if eqb i.created_at 0 then created_at else i.created_at;
}

-- createdAt.Add(age). A time before the zero time has no counterpart here.
unfoldable pub expiry : Time → ℤ → Time
expiry created_at age = created_at + pos_part age - neg_part age

-- `calendar` is the UTC text of a time, to the second.
module _ (platform : Platform) (calendar : Time → String) {S : Type 0} (provider : VmProvider S)
    (config : Config) where
  open platform use {floats, sorter, duration_text, sha256_hex, library}

  unfoldable pub validate_sandbox_create : Option DriverSandbox → Exec S (Unit {0})
  validate_sandbox_create sb = lift invalid_status (validate_sandbox floats sb)

  unfoldable pub request_digest : DriverSandbox → String → String → String
  unfolding join_nul
  request_digest sb instance_type cloud_init = sha256_hex (
      join_nul (
        config.gateway_id ∷ sb.id ∷ sb.name ∷ sb.namespace ∷ sb.workspace ∷ instance_type
        ∷ config.boot_source ∷ config.boot_source_namespace ∷ config.default_preference
        ∷ config.storage_class ∷ config.disk_size ∷ cloud_init ∷ []))

  unfoldable pub resource_key : DriverSandbox → String
  resource_key sb = sha256_hex (concat config.gateway_id (concat "\0" sb.id))

  unfoldable pub launch_spec : DriverSandbox → String → String → Time → String → VmSpec
  unfolding request_digest resource_key
  launch_spec sb instance_type cloud_init created_at lifetime = record {
    sandbox_id = sb.id;
    name = sb.name;
    sandbox_namespace = sb.namespace;
    workspace = sb.workspace;
    gateway_id = config.gateway_id;
    instance_type = instance_type;
    boot_source = config.boot_source;
    boot_source_namespace = config.boot_source_namespace;
    preference = config.default_preference;
    storage_class = config.storage_class;
    cloud_init = cloud_init;
    resource_key = resource_key sb;
    request_digest = request_digest sb instance_type cloud_init;
    disk_size = config.disk_size;
    storage_labels = config.storage_labels;
    storage_annotations = config.storage_annotations;
    created_at = created_at;
    max_lifetime = lifetime;
  }

  -- The update that commits the machine; where it is refused the machine is terminated again, and an
  -- error of that is only logged. The 30 seconds that the termination has are not modelled.
  unfoldable pub commit : DriverSandbox → ℕ → Time → VmInstance → Exec S (Unit {0})
  unfolding launched_record could_not_commit may_commit
  commit sb lease created_at i w =
      let (r, updated, found) =
        Registry.update_if w.registry sb.id (some (may_commit lease))
          (launched_record i created_at) in
      let w' : World S = record w { registry = r } in
      if found
      then (ok tt, record w' { registry = Registry.broadcast_sandbox r updated })
      else (err could_not_commit, (provider.terminate i.vm_name w').1)

  -- A machine without a name is refused before the commit.
  unfoldable pub commit_named : DriverSandbox → ℕ → Time → VmInstance → Exec S (Unit {0})
  unfolding commit filled_in
  commit_named sb lease created_at i =
      if i.vm_name == ""
      then fail unavailable (literal "KubeVirt launch returned an invalid VM identity")
      else commit sb lease created_at (filled_in created_at i)

  unfoldable pub cloud_init_params : DriverSandbox → Time → String → CloudInitParams
  unfolding expiry
  cloud_init_params sb created_at lifetime = record {
    transport = config.transport;
    sandbox_id = sb.id;
    sandbox_token = get_sandbox_token sb.spec;
    log_level = log_level_or_info (get_log_level sb.spec);
    max_lifetime = lifetime;
    expires_at = expiry created_at config.max_instance_age;
  }

  unfoldable pub launch_with :
      DriverSandbox → String → ℕ → Time → String → String → Exec S (Unit {0})
  unfolding launch_spec commit_named
  launch_with sb instance_type lease created_at lifetime cloud_init = do
    i ← request (provider.launch (launch_spec sb instance_type cloud_init created_at lifetime))
    commit_named sb lease created_at i

  -- From the reservation on.
  unfoldable pub launch_reserved : DriverSandbox → String → Time → ℕ → Exec S (Unit {0})
  unfolding cloud_init_params launch_with
  launch_reserved sb instance_type created_at lease = do
    lifetime ← max_lifetime duration_text
    cloud_init ←
        lift bootstrap_status
          (render_cloud_init library calendar (cloud_init_params sb created_at lifetime))
    launch_with sb instance_type lease created_at lifetime cloud_init

  unfoldable pub reserve_and_launch : DriverSandbox → Time → String → Exec S (Unit {0})
  unfolding pending_record launch_reserved
  reserve_and_launch sb created_at instance_type = do
    lease ← try_reserve_with_lease (pending_record sb created_at)
    rolling_back sb.id (launch_reserved sb instance_type created_at lease)

  unfoldable pub create_valid : DriverSandbox → Exec S (Unit {0})
  unfolding reserve_and_launch
  create_valid sb = do
    instance_type ← lift sizing_status (
        select_instance_type floats sorter (get_resources (get_template sb.spec))
          config.default_instance_type)
    created_at ← now
    reserve_and_launch sb created_at instance_type

  -- `validateSandbox` refuses a nil sandbox.
  unfoldable pub create_sandbox : Option DriverSandbox → Exec S (Unit {0})
  unfolding create_valid
  create_sandbox none = lift invalid_status (validate_sandbox floats none)
  create_sandbox (some sb) = do
    lift invalid_status (validate_sandbox floats (some sb))
    create_valid sb
