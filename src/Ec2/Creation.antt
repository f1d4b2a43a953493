-- ===== src/Ec2/Creation.antt =====
-- What `CreateSandbox` of drivers/ec2/driver.go leaves in the registry.
use openshell_drivers_contri.Prelude.{◌≡◌, refl, sym, subst, String, Option, none, some, eq_refl}
use openshell_drivers_contri.Prelude.Assoc.{lookup, lookup-insert}
use openshell_drivers_contri.Prelude.Result.{ok, err}
use openshell_drivers_contri.Proto.Messages.{DriverSandbox}
use openshell_drivers_contri.Safeguards.Records.{Time, Record, effective_max_age}
use openshell_drivers_contri.Safeguards.Registry.{reserve, discard}
use openshell_drivers_contri.Safeguards.Capacity.{granted, leased, reserve_cases, rollback-granted}
use openshell_drivers_contri.Service.{Status, World, Exec, lift, now, ◌>>=◌, ◌>>◌}
use openshell_drivers_contri.Service.Rollback.{rolling_back}
use openshell_drivers_contri.Service.Restores.{
  Restores, lift-Restores, called-Restores, undo-Restores,
}
use openshell_drivers_contri.Ec2.Conditions.{provider_error}
use openshell_drivers_contri.Ec2.Config.{Config}
use openshell_drivers_contri.Service.Actions.{
  Platform, try_reserve, reserve_status, sizing_status, invalid_status, bootstrap_status,
}
use openshell_drivers_contri.Ec2.UserData.{render_user_data}
use openshell_drivers_contri.Ec2.Provider.{LaunchSpec, Instance, Provider}
use openshell_drivers_contri.Safeguards.Lookups.{update-some}
use openshell_drivers_contri.Proto.Getters.{get_template, get_resources}
use openshell_drivers_contri.Ec2.Catalog.{select_instance_type}
use openshell_drivers_contri.Ec2.Validate.{validate_sandbox}
use openshell_drivers_contri.Ec2.Create.{
  pending_record, launched_record, launch_reserved, commit, or_pending, launch_spec, launch_with,
  user_data_params, create_valid, create_sandbox,
}

-- The provider's call leaves the registry's records alone: no other goroutine changes them while
-- it waits.
abbrev pub LaunchKeepsRecords : {S : Type 0} → Provider S → Type 0
LaunchKeepsRecords {S} provider =
    (spec : LaunchSpec) (w : World S)
    → (provider.launch spec w).1.registry.records ≡ w.registry.records

module _ (platform : Platform) {S : Type 0} (provider : Provider S) (config : Config) where
  commit-Restores :
      (sb : DriverSandbox) (time : Time) (i : Instance) (w w' : World S) (rec : Record)
      → lookup sb.id w'.registry.records ≡ some rec
      → Restores w (commit platform provider config sb time i w')
  unfolding commit
  commit-Restores sb time i w w' rec tracked =
      rw (update-some w'.registry sb.id (launched_record i time) rec tracked) tt

  launch_with-Restores :
      (sb : DriverSandbox) (instance_type : String) (time : Time) (lifetime user_data : String)
      (w : World S) (rec : Record)
      → LaunchKeepsRecords provider
      → lookup sb.id w.registry.records ≡ some rec
      → Restores w (launch_with platform provider config sb instance_type time lifetime user_data w)
  unfolding launch_with
  launch_with-Restores sb instance_type time lifetime user_data w rec keeps tracked =
      let spec = launch_spec platform provider config sb instance_type user_data time lifetime in
      called-Restores w provider_error (provider.launch spec w)
        (λ i. commit platform provider config sb time (or_pending i)) (keeps spec w)
        λ i w' same.
          commit-Restores sb time (or_pending i) w w' rec
            (subst (λ m. lookup sb.id m ≡ some rec) (sym same) tracked)

  launch_reserved-Restores :
      (sb : DriverSandbox) (instance_type : String) (time : Time) (w : World S) (rec : Record)
      → LaunchKeepsRecords provider
      → lookup sb.id w.registry.records ≡ some rec
      → Restores w (launch_reserved platform provider config sb instance_type time w)
  unfolding launch_reserved
  launch_reserved-Restores sb instance_type time w rec keeps tracked =
      let lifetime = platform.duration_text (effective_max_age w.registry.limits) in
      lift-Restores w bootstrap_status
        (render_user_data platform.library (user_data_params platform provider config sb lifetime))
        (launch_with platform provider config sb instance_type time lifetime)
        λ user_data.
          launch_with-Restores sb instance_type time lifetime user_data w rec keeps tracked

  reserved-Restores :
      (w : World S) (rec : Record) (k : Exec S (Unit {0}))
      → (lookup rec.sandbox_id w.registry.records ≡ none
          → Restores w (k (record w { registry = granted w.registry rec })))
      → Restores w ((try_reserve rec >> k) w)
  unfolding try_reserve reserve
  reserved-Restores w rec k h =
      reserve_cases w.registry rec
        (λ x. Restores w ((lift reserve_status (discard x.1) >> k) (record w { registry = x.0 })))
        (λ old e. refl) (λ new full. refl) (λ new room. h new)

  granted-Restores :
      (w : World S) (sb : DriverSandbox) (instance_type : String)
      → LaunchKeepsRecords provider
      → lookup sb.id w.registry.records ≡ none
      → Restores w (
          rolling_back sb.id
            (launch_reserved platform provider config sb instance_type w.clock)
            (record w { registry = granted w.registry (pending_record sb w.clock) }))
  unfolding rolling_back pending_record
  granted-Restores w sb instance_type keeps new =
      let rec = pending_record sb w.clock in
      let w' : World S = record w { registry = granted w.registry rec } in
      undo-Restores w w' sb.id
        (launch_reserved platform provider config sb instance_type w.clock w')
        (rollback-granted w.registry rec refl new)
        (launch_reserved-Restores sb instance_type w.clock w' (leased w.registry rec) keeps (
          rw (lookup-insert sb.id sb.id (leased w.registry rec) w.registry.records, eq_refl sb.id)))

  create_valid-Restores :
      (sb : DriverSandbox) (w : World S)
      → LaunchKeepsRecords provider
      → Restores w (create_valid platform provider config sb w)
  unfolding create_valid pending_record
  create_valid-Restores sb w keeps =
      let rec = pending_record sb w.clock in
      lift-Restores w sizing_status
        (select_instance_type platform.floats platform.sorter (get_resources (get_template sb.spec))
          config.default_instance)
        (λ instance_type w'.
          (do
            created_at ← now
            try_reserve (pending_record sb created_at)
            rolling_back sb.id
                (launch_reserved platform provider config sb instance_type created_at))
            w')
        λ instance_type.
          reserved-Restores w rec
            (rolling_back sb.id (launch_reserved platform provider config sb instance_type w.clock))
            λ new. granted-Restores w sb instance_type keeps new

  create_sandbox-Restores :
      (sb : Option DriverSandbox) (w : World S)
      → LaunchKeepsRecords provider
      → Restores w (create_sandbox platform provider config sb w)
  unfolding create_sandbox validate_sandbox
  create_sandbox-Restores none w keeps =
      lift-Restores w invalid_status (validate_sandbox platform.floats none) (λ _ w'. (ok tt, w'))
        λ _. tt
  create_sandbox-Restores (some sb) w keeps =
      lift-Restores w invalid_status (validate_sandbox platform.floats (some sb))
        (λ _. create_valid platform provider config sb) λ _. create_valid-Restores sb w keeps

  -- A creation that fails, at whatever step, leaves the records as they were, where the provider's
  -- launch leaves them alone.
  pub create_sandbox-records :
      (sb : Option DriverSandbox) (w w' : World S) (s : Status)
      → LaunchKeepsRecords provider
      → create_sandbox platform provider config sb w ≡ (err s, w')
      → w'.registry.records ≡ w.registry.records
  create_sandbox-records sb w w' s keeps h =
      subst (Restores w) h (create_sandbox-Restores sb w keeps)
