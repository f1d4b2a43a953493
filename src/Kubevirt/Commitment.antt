-- ===== src/Kubevirt/Commitment.antt =====
-- What a `CreateSandbox` of drivers/kubevirt/driver.go that succeeds has done, whatever other
-- goroutines do to the registry while the provider is called.
use openshell_drivers_contri.Prelude.{
  ℕ, ◌≡◌, refl, subst, String, false, some, ◌==◌, Option-cases, Bool-cases, inl, inr, eq_refl,
  arith,
}
use openshell_drivers_contri.Prelude.Assoc.{lookup, lookup-insert}
use openshell_drivers_contri.Prelude.Result.{ok}
use openshell_drivers_contri.Proto.Messages.{DriverSandbox}
use openshell_drivers_contri.Proto.Getters.{get_template, get_resources}
use openshell_drivers_contri.Safeguards.Records.{
  Time, Record, clone_record, effective_max_age, SpecIsRedacted, clone_redacted_spec-SpecIsRedacted,
}
use openshell_drivers_contri.Safeguards.Registry.{reserve_with_lease}
use openshell_drivers_contri.Safeguards.Lookups.{
  update_if-none, update_if-accepted, update_if-refused, records-broadcast_sandbox,
}
use openshell_drivers_contri.Service.{World}
use openshell_drivers_contri.Service.Rollback.{rolling_back}
use openshell_drivers_contri.Service.Ensures.{Ensures, lift-Ensures, called-Ensures, undo-Ensures}
use openshell_drivers_contri.Service.Actions.{
  Platform, reserve_status, sizing_status, invalid_status, bootstrap_status, try_reserve_with_lease,
}
use openshell_drivers_contri.Kubevirt.Config.{Config}
use openshell_drivers_contri.Kubevirt.Provider.{VmSpec, VmInstance, VmProvider}
use openshell_drivers_contri.Kubevirt.Catalog.{select_instance_type}
use openshell_drivers_contri.Kubevirt.CloudInit.{render_cloud_init}
use openshell_drivers_contri.Kubevirt.Validate.{validate_sandbox}
use openshell_drivers_contri.Kubevirt.Conditions.{provider_error}
use openshell_drivers_contri.Kubevirt.Create.{
  pending_record, launched_record, may_commit, filled_in, commit, commit_named, launch_spec,
  launch_with, cloud_init_params, launch_reserved, reserve_and_launch, create_valid, create_sandbox,
}

module _ (platform : Platform) (calendar : Time → String) {S : Type 0} (provider : VmProvider S)
    (config : Config) where
  -- The sandbox's record stands in the registry with the machine that the provider launched for
  -- its ID, which has a name, and without the token; the record that stood there when the launch
  -- returned was one that no deletion or stop had marked.
  pub record IsCommitted (sb : DriverSandbox) (w : World S) : Type 0 where
    pub asked : VmSpec
    pub before : World S
    pub launched : VmInstance
    pub answer : (provider.launch asked before).0 ≡ ok launched
    pub for_sandbox : asked.sandbox_id ≡ sb.id
    pub has_name : (launched.vm_name == "") ≡ false
    pub reserved : Record
    pub stood : lookup sb.id (provider.launch asked before).1.registry.records ≡ some reserved
    pub not_asked_to_delete : (reserved.state == "delete-requested") ≡ false
    pub not_deleting : (reserved.state == "deleting") ≡ false
    pub not_stopping : (reserved.state == "stopping") ≡ false
    pub rec : Record
    pub tracked : lookup sb.id w.registry.records ≡ some rec
    pub same_machine : rec.instance_id ≡ launched.vm_name
    pub same_lease : rec.lease ≡ reserved.lease
    pub redacted : SpecIsRedacted rec.spec

  module _ (sb : DriverSandbox) where
    commit-Ensures :
        (asked : VmSpec) (before w : World S) (lease : ℕ) (time : Time) (i : VmInstance)
        → asked.sandbox_id ≡ sb.id
        → (i.vm_name == "") ≡ false
        → (provider.launch asked before).0 ≡ ok i
        → (provider.launch asked before).1 ≡ w
        → Ensures
            (IsCommitted sb)
            (commit platform calendar provider config sb lease time (filled_in time i) w)
    unfolding commit launched_record clone_record filled_in may_commit
    commit-Ensures asked before w lease time i for_it named answer left =
        let f = launched_record (filled_in time i) time in
        elim (Option-cases (lookup sb.id w.registry.records)) [
          | inl e ↦ rw (update_if-none w.registry sb.id (some (may_commit lease)) f e) tt
          | inr (rec, e) ↦ elim (Bool-cases (may_commit lease (clone_record rec))) [
            | inr barred ↦
                rw (update_if-refused w.registry sb.id (may_commit lease) f rec e barred) tt
            | inl fits ↦
                rw (update_if-accepted w.registry sb.id (may_commit lease) f rec e fits) (record {
                  asked = asked;
                  before = before;
                  launched = i;
                  answer = answer;
                  for_sandbox = for_it;
                  has_name = named;
                  reserved = rec;
                  stood = rw left e;
                  not_asked_to_delete = ground (arith, fits);
                  not_deleting = ground (arith, fits);
                  not_stopping = ground (arith, fits);
                  rec = clone_record (f rec);
                  tracked = rw (records-broadcast_sandbox, lookup-insert, eq_refl sb.id) refl;
                  same_machine = refl;
                  same_lease = refl;
                  redacted = clone_redacted_spec-SpecIsRedacted rec.spec;
                })
          ]
        ]

    commit_named-Ensures :
        (asked : VmSpec) (before w : World S) (lease : ℕ) (time : Time) (i : VmInstance)
        → asked.sandbox_id ≡ sb.id
        → (provider.launch asked before).0 ≡ ok i
        → (provider.launch asked before).1 ≡ w
        → Ensures
            (IsCommitted sb)
            (commit_named platform calendar provider config sb lease time i w)
    unfolding commit_named
    commit_named-Ensures asked before w lease time i for_it answer left =
        elim (Bool-cases (i.vm_name == "")) [
          | inl unnamed ↦ rw unnamed tt
          | inr named ↦
              rw named (commit-Ensures asked before w lease time i for_it named answer left)
        ]

    launch_with-Ensures :
        (instance_type : String) (lease : ℕ) (time : Time) (lifetime cloud_init : String)
        (w : World S)
        → Ensures (IsCommitted sb) (
            launch_with platform calendar provider config sb instance_type lease time lifetime
              cloud_init w)
    unfolding launch_with launch_spec
    launch_with-Ensures instance_type lease time lifetime cloud_init w =
        let asked =
          launch_spec platform calendar provider config sb instance_type cloud_init time lifetime in
        called-Ensures (IsCommitted sb) w provider_error (provider.launch asked w)
          (commit_named platform calendar provider config sb lease time)
          λ i w' answer left. commit_named-Ensures asked w w' lease time i refl answer left

    launch_reserved-Ensures :
        (instance_type : String) (time : Time) (lease : ℕ) (w : World S)
        → Ensures
            (IsCommitted sb)
            (launch_reserved platform calendar provider config sb instance_type time lease w)
    unfolding launch_reserved
    launch_reserved-Ensures instance_type time lease w =
        let lifetime = platform.duration_text (effective_max_age w.registry.limits) in
        lift-Ensures (IsCommitted sb) w bootstrap_status
          (render_cloud_init platform.library calendar
            (cloud_init_params platform calendar provider config sb time lifetime))
          (launch_with platform calendar provider config sb instance_type lease time lifetime)
          λ cloud_init. launch_with-Ensures instance_type lease time lifetime cloud_init w

    reserve_and_launch-Ensures :
        (time : Time) (instance_type : String) (w : World S)
        → Ensures
            (IsCommitted sb)
            (reserve_and_launch platform calendar provider config sb time instance_type w)
    unfolding reserve_and_launch try_reserve_with_lease rolling_back
    reserve_and_launch-Ensures time instance_type w =
        let x = reserve_with_lease w.registry (pending_record sb time) in
        let w' : World S = record w { registry = x.0 } in
        let body = launch_reserved platform calendar provider config sb instance_type time in
        lift-Ensures (IsCommitted sb) w' reserve_status x.1
          (λ lease. rolling_back sb.id (body lease))
          λ lease.
            undo-Ensures (IsCommitted sb) sb.id (body lease w')
              (launch_reserved-Ensures instance_type time lease w')

    create_valid-Ensures :
        (w : World S)
        → Ensures (IsCommitted sb) (create_valid platform calendar provider config sb w)
    unfolding create_valid
    create_valid-Ensures w =
        lift-Ensures (IsCommitted sb) w sizing_status
          (select_instance_type platform.floats platform.sorter
            (get_resources (get_template sb.spec)) config.default_instance_type)
          (λ instance_type w'.
            reserve_and_launch platform calendar provider config sb w'.clock instance_type w')
          λ instance_type. reserve_and_launch-Ensures w.clock instance_type w

  -- A creation that succeeds has committed the machine that the provider launched: its record
  -- stands in the registry, redacted, with the machine's name, which is not empty; and the record
  -- that stood there when the launch returned had not been marked by a deletion or a stop.
  pub create_vm-IsCommitted :
      (sb : DriverSandbox) (w w' : World S)
      → create_sandbox platform calendar provider config (some sb) w ≡ (ok tt, w')
      → IsCommitted sb w'
  unfolding create_sandbox
  create_vm-IsCommitted sb w w' h = subst (Ensures (IsCommitted sb)) h (
      lift-Ensures (IsCommitted sb) w invalid_status (validate_sandbox platform.floats (some sb))
        (λ _. create_valid platform calendar provider config sb) λ _. create_valid-Ensures sb w)
