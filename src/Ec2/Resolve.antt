-- ===== src/Ec2/Resolve.antt =====
-- `resolve` of drivers/ec2/driver.go, and the handlers that begin with it.
use openshell_drivers_contri.Prelude.{
  String, Bool, true, false, not, ◌&&◌, ◌||◌, some, List, [], ◌∷◌, map, select, ◌==◌, if◌then◌else◌,
}
use openshell_drivers_contri.Prelude.Result.{Result, ok, err}
use openshell_drivers_contri.Proto.Messages.{DriverSandbox}
use openshell_drivers_contri.Safeguards.Records.{Record, to_driver_sandbox}
use openshell_drivers_contri.Safeguards.Registry as Registry
use openshell_drivers_contri.Safeguards.Registry.{err_capacity}
use openshell_drivers_contri.Service.{
  Code, Status, Exec, pure, fail, now, ◌>>=◌, ◌>>◌, literal, invalid_argument, not_found,
  failed_precondition,
}
use openshell_drivers_contri.Ec2.Config.{Config}
use openshell_drivers_contri.Ec2.Conditions.{request}
use openshell_drivers_contri.Ec2.Provider.{Instance, Provider}
use openshell_drivers_contri.Ec2.Conditions.{
  sandbox_status, record_from_instance, instance_to_driver_sandbox,
}

-- The instances that `resolve` and `ListSandboxes` do not skip.
abbrev pub is_terminated : Instance → Bool
is_terminated i = i.state == "terminated"

unfoldable pub not_resolved : {S : Type 0} → Code → String → Exec S Record
not_resolved code text = fail code (literal text)

-- The provider's answer, with terminated instances left out.
unfoldable pub adopt : {S : Type 0} → List Instance → Exec S Record
unfolding not_resolved
adopt [] w = not_resolved not_found "sandbox not found" w
adopt (i ∷ []) w =
    let rec : Record = record_from_instance i w.clock in
    (ok rec, record w { registry = (Registry.add w.registry (some rec)).0 })
adopt (i ∷ j ∷ rest) w =
    not_resolved failed_precondition "multiple provider instances match sandbox" w

unfoldable pub has_name : String → Record → Bool
has_name name rec = rec.name == name && not (rec.instance_id == "")

-- d.registry.Update to the state, and the broadcast of what it returns, found or not.
unfoldable pub move_to : {S : Type 0} → String → String → Exec S (Unit {0})
move_to {S} state id w =
    let (r, updated, _) = Registry.update w.registry id (λ rec. record rec {
      state = state;
      last_status = some (sandbox_status rec.name rec.instance_id state w.clock);
    }) in
    (ok tt, record w { registry = Registry.broadcast_sandbox r updated })

module _ {S : Type 0} (provider : Provider S) (config : Config) where
  unfoldable pub ask_provider : String → String → Exec S Record
  unfolding adopt
  ask_provider id name = do
    instances ←
        request
          (provider.list (record { gateway_id = config.gateway_id; sandbox_id = id; name = name }))
    adopt (select (λ i. not (is_terminated i)) instances)

  -- The records of that name.
  unfoldable pub of_matches : String → List Record → Exec S Record
  unfolding ask_provider not_resolved
  of_matches name [] = ask_provider "" name
  of_matches name (rec ∷ []) = pure rec
  of_matches name (rec ∷ rec' ∷ rest) = not_resolved failed_precondition "sandbox name is ambiguous"

  unfoldable pub resolve_id : String → Exec S Record
  unfolding ask_provider
  resolve_id id w =
      let (rec, found) = Registry.get w.registry id in
      if found && not (rec.instance_id == "") then (ok rec, w) else ask_provider id "" w

  unfoldable pub resolve_name : String → Exec S Record
  unfolding of_matches has_name
  resolve_name name w = of_matches name (select (has_name name) (Registry.all w.registry)) w

  unfoldable pub resolve : String → String → Exec S Record
  unfolding resolve_id resolve_name not_resolved
  resolve id name =
      if id == ""
      then (if name == ""
          then not_resolved invalid_argument "exactly one of sandbox_id or sandbox_name is required"
          else resolve_name name)
      else if name == ""
      then resolve_id id
      else not_resolved invalid_argument "exactly one of sandbox_id or sandbox_name is required"

  unfoldable pub get_sandbox : String → String → Exec S DriverSandbox
  get_sandbox id name = do rec ← resolve id name; pure (to_driver_sandbox rec)

  unfoldable pub list_sandboxes : Exec S (List DriverSandbox)
  list_sandboxes = do
    instances ←
        request
          (provider.list (record { gateway_id = config.gateway_id; sandbox_id = ""; name = "" }))
    time ← now
    pure (
        map (λ i. instance_to_driver_sandbox i time)
          (select (λ i. not (is_terminated i || i.sandbox_id == "")) instances))

  unfoldable pub stop_sandbox : String → String → Exec S (Unit {0})
  unfolding move_to
  stop_sandbox id name = do
    rec ← resolve id name
    request (provider.stop rec.instance_id)
    move_to "stopping" rec.sandbox_id

  unfoldable pub delete_resolved : Result Status Record → Exec S Bool
  unfolding move_to
  delete_resolved (ok rec) = do
    request (provider.terminate (rec.instance_id ∷ []))
    move_to "shutting-down" rec.sandbox_id
    pure true
  delete_resolved (err s) = elim s.code [ not_found ↦ pure false | _ ↦ λ w. (err s, w) ]

  -- Whether the sandbox is deleted; one that is not found is not an error.
  unfoldable pub delete_sandbox : String → String → Exec S Bool
  unfolding delete_resolved
  delete_sandbox id name w = let (result, w') = resolve id name w in delete_resolved result w'
