-- ===== src/Kubevirt/Creation.antt =====
-- What `CreateSandbox` of drivers/kubevirt/driver.go leaves in the registry where it fails.
use openshell_drivers_contri.Prelude.{
  ℕ, ◌≡◌, refl, ap, subst, String, true, Option, none, some, arith, ◌==◌, Bool-cases, inl, inr,
  eq_refl, ◌∙◌,
}
use openshell_drivers_contri.Prelude.Assoc.{lookup, lookup-insert}
use openshell_drivers_contri.Prelude.Result.{ok, err}
use openshell_drivers_contri.Proto.Messages.{DriverSandbox}
use openshell_drivers_contri.Proto.Getters.{get_template, get_resources}
use openshell_drivers_contri.Safeguards.Records.{Time, Record, clone_record, effective_max_age}
use openshell_drivers_contri.Safeguards.Capacity.{granted, leased, reserve_cases, rollback-granted}
use openshell_drivers_contri.Safeguards.Lookups.{update_if-accepted}
use openshell_drivers_contri.Service.{Status, World, lift, ◌>>=◌}
use openshell_drivers_contri.Service.Rollback.{rolling_back}
use openshell_drivers_contri.Service.Restores.{
  Restores, lift-Restores, called-Restores, undo-Restores,
}
use openshell_drivers_contri.Service.Actions.{
  Platform, reserve_status, sizing_status, invalid_status, bootstrap_status, try_reserve_with_lease,
}
use openshell_drivers_contri.Kubevirt.Config.{Config}
use openshell_drivers_contri.Kubevirt.Provider.{VmSpec, VmInstance, VmProvider}
use openshell_drivers_contri.Kubevirt.Catalog.{select_instance_type}
use openshell_drivers_contri.Kubevirt.CloudInit.{render_cloud_init}
use openshell_drivers_contri.Kubevirt.Validate.{validate_sandbox}
use openshell_drivers_contri.Kubevirt.Conditions.{provider_error}
use openshell_drivers_contri.Kubevirt.Create.{
  pending_record, launched_record, may_commit, filled_in, commit, commit_named, launch_spec,
  launch_with, cloud_init_params, launch_reserved, reserve_and_launch, create_valid, create_sandbox,
}

-- The provider's call leaves the registry's records alone: no other goroutine changes them while
-- it waits.
abbrev pub LaunchKeepsRecords : {S : Type 0} → VmProvider S → Type 0
LaunchKeepsRecords {S} provider =
    (spec : VmSpec) (w : World S) → (provider.launch spec w).1.registry.records ≡ w.registry.records

-- The reservation of a sandbox, under its lease.
record IsReserved (lease : ℕ) (rec : Record) : Type 0 where
  same_lease : rec.lease ≡ lease
  launching : rec.state ≡ "launching"

IsReserved-may_commit :
    (lease : ℕ) (rec : Record) → IsReserved lease rec → may_commit lease (clone_record rec) ≡ true
unfolding may_commit clone_record
IsReserved-may_commit lease rec h = rw (h.same_lease, h.launching) (ground arith)

module _ (platform : Platform) (calendar : Time → String) {S : Type 0} (provider : VmProvider S)
    (config : Config) where
  commit-Restores :
      (sb : DriverSandbox) (lease : ℕ) (time : Time) (i : VmInstance) (w w' : World S)
      (rec : Record)
      → IsReserved lease rec
      → lookup sb.id w'.registry.records ≡ some rec
      → Restores w (commit platform calendar provider config sb lease time i w')
  unfolding commit
  commit-Restores sb lease time i w w' rec reserved tracked =
      rw
        (update_if-accepted w'.registry sb.id (may_commit lease) (launched_record i time) rec
          tracked (IsReserved-may_commit lease rec reserved))
        tt

  commit_named-Restores :
      (sb : DriverSandbox) (lease : ℕ) (time : Time) (i : VmInstance) (w w' : World S)
      (rec : Record)
      → IsReserved lease rec
      → w'.registry.records ≡ w.registry.records
      → lookup sb.id w.registry.records ≡ some rec
      → Restores w (commit_named platform calendar provider config sb lease time i w')
  unfolding commit_named
  commit_named-Restores sb lease time i w w' rec reserved same tracked =
      elim (Bool-cases (i.vm_name == "")) [
        | inl unnamed ↦ rw unnamed same
        | inr named ↦ rw named (
            commit-Restores sb lease time (filled_in time i) w w' rec reserved
              (ap (lookup sb.id) same ∙ tracked))
      ]

  launch_with-Restores :
      (sb : DriverSandbox) (instance_type : String) (lease : ℕ) (time : Time)
      (lifetime cloud_init : String) (w : World S) (rec : Record)
      → LaunchKeepsRecords provider
      → IsReserved lease rec
      → lookup sb.id w.registry.records ≡ some rec
      → Restores w (
          launch_with platform calendar provider config sb instance_type lease time lifetime
            cloud_init w)
  unfolding launch_with
  launch_with-Restores sb instance_type lease time lifetime cloud_init w rec keeps reserved
        tracked =
      let spec =
        launch_spec platform calendar provider config sb instance_type cloud_init time lifetime in
      called-Restores w provider_error (provider.launch spec w)
        (commit_named platform calendar provider config sb lease time) (keeps spec w)
        λ i w' same. commit_named-Restores sb lease time i w w' rec reserved same tracked

  launch_reserved-Restores :
      (sb : DriverSandbox) (instance_type : String) (time : Time) (lease : ℕ) (w : World S)
      (rec : Record)
      → LaunchKeepsRecords provider
      → IsReserved lease rec
      → lookup sb.id w.registry.records ≡ some rec
      → Restores w (launch_reserved platform calendar provider config sb instance_type time lease w)
  unfolding launch_reserved
  launch_reserved-Restores sb instance_type time lease w rec keeps reserved tracked =
      let lifetime = platform.duration_text (effective_max_age w.registry.limits) in
      lift-Restores w bootstrap_status
        (render_cloud_init platform.library calendar
          (cloud_init_params platform calendar provider config sb time lifetime))
        (launch_with platform calendar provider config sb instance_type lease time lifetime)
        λ cloud_init.
          launch_with-Restores sb instance_type lease time lifetime cloud_init w rec keeps reserved
            tracked

  granted-Restores :
      (w : World S) (sb : DriverSandbox) (instance_type : String)
      → LaunchKeepsRecords provider
      → lookup sb.id w.registry.records ≡ none
      → (let r = granted w.registry (pending_record sb w.clock) in
          Restores w (
            rolling_back sb.id
              (launch_reserved platform calendar provider config sb instance_type w.clock
                r.next_lease)
              (record w { registry = r })))
  unfolding rolling_back pending_record clone_record
  granted-Restores w sb instance_type keeps new =
      let rec = pending_record sb w.clock in
      let r = granted w.registry rec in
      let w' : World S = record w { registry = r } in
      undo-Restores w w' sb.id
        (launch_reserved platform calendar provider config sb instance_type w.clock r.next_lease w')
        (rollback-granted w.registry rec refl new)
        (launch_reserved-Restores sb instance_type w.clock r.next_lease w' (leased w.registry rec)
          keeps (record { same_lease = refl; launching = refl })
          (rw
            (lookup-insert sb.id sb.id (leased w.registry rec) w.registry.records, eq_refl sb.id)))

  reserve_and_launch-Restores :
      (sb : DriverSandbox) (instance_type : String) (w : World S)
      → LaunchKeepsRecords provider
      → Restores w (reserve_and_launch platform calendar provider config sb w.clock instance_type w)
  unfolding reserve_and_launch try_reserve_with_lease pending_record
  reserve_and_launch-Restores sb instance_type w keeps =
      reserve_cases w.registry (pending_record sb w.clock)
        (λ x. Restores w (
          (lift reserve_status x.1 >>= λ lease.
          rolling_back sb.id
            (launch_reserved platform calendar provider config sb instance_type w.clock lease))
            (record w { registry = x.0 })))
        (λ old e. refl) (λ new full. refl)
        (λ new room. granted-Restores w sb instance_type keeps new)

  create_valid-Restores :
      (sb : DriverSandbox) (w : World S)
      → LaunchKeepsRecords provider
      → Restores w (create_valid platform calendar provider config sb w)
  unfolding create_valid
  create_valid-Restores sb w keeps =
      lift-Restores w sizing_status
        (select_instance_type platform.floats platform.sorter (get_resources (get_template sb.spec))
          config.default_instance_type)
        (λ instance_type w'.
          reserve_and_launch platform calendar provider config sb w'.clock instance_type w')
        λ instance_type. reserve_and_launch-Restores sb instance_type w keeps

  create_sandbox-Restores :
      (sb : Option DriverSandbox) (w : World S)
      → LaunchKeepsRecords provider
      → Restores w (create_sandbox platform calendar provider config sb w)
  unfolding create_sandbox validate_sandbox
  create_sandbox-Restores none w keeps =
      lift-Restores w invalid_status (validate_sandbox platform.floats none) (λ _ w'. (ok tt, w'))
        λ _. tt
  create_sandbox-Restores (some sb) w keeps =
      lift-Restores w invalid_status (validate_sandbox platform.floats (some sb))
        (λ _. create_valid platform calendar provider config sb)
        λ _. create_valid-Restores sb w keeps

  -- A creation of a virtual machine that fails, at whatever step, leaves the records as they were,
  -- where the provider's launch leaves them alone.
  pub create_vm-records :
      (sb : Option DriverSandbox) (w w' : World S) (s : Status)
      → LaunchKeepsRecords provider
      → create_sandbox platform calendar provider config sb w ≡ (err s, w')
      → w'.registry.records ≡ w.registry.records
  create_vm-records sb w w' s keeps h = subst (Restores w) h (create_sandbox-Restores sb w keeps)
