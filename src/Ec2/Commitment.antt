-- ===== src/Ec2/Commitment.antt =====
-- What a `CreateSandbox` of drivers/ec2/driver.go that succeeds has done, whatever other goroutines do
-- to the registry while the provider is called.
use openshell_drivers_contri.Prelude.{
  ◌≡◌, refl, subst, String, some, Option-cases, inl, inr, eq_refl,
}
use openshell_drivers_contri.Prelude.Assoc.{lookup, lookup-insert}
use openshell_drivers_contri.Prelude.Result.{Result, ok}
use openshell_drivers_contri.Proto.Messages.{DriverSandbox}
use openshell_drivers_contri.Proto.Getters.{get_template, get_resources}
use openshell_drivers_contri.Safeguards.Records.{
  Time, Record, clone_record, effective_max_age, SpecIsRedacted, clone_redacted_spec-SpecIsRedacted,
}
use openshell_drivers_contri.Safeguards.Registry.{reserve}
use openshell_drivers_contri.Service.{Status, World, now, ◌>>=◌, ◌>>◌}
use openshell_drivers_contri.Service.Rollback.{rolling_back}
use openshell_drivers_contri.Service.Ensures.{Ensures, lift-Ensures, called-Ensures, undo-Ensures}
use openshell_drivers_contri.Ec2.Config.{Config}
use openshell_drivers_contri.Service.Actions.{
  Platform, try_reserve, bootstrap_status, reserve_status, sizing_status, invalid_status,
}
use openshell_drivers_contri.Ec2.Conditions.{provider_error}
use openshell_drivers_contri.Ec2.UserData.{render_user_data}
use openshell_drivers_contri.Ec2.Provider.{LaunchSpec, Instance, Provider}
use openshell_drivers_contri.Ec2.Catalog.{select_instance_type}
use openshell_drivers_contri.Ec2.Validate.{validate_sandbox}
use openshell_drivers_contri.Safeguards.Lookups.{
  update-some, update-none, records-broadcast_sandbox,
}
use openshell_drivers_contri.Ec2.Create.{
  pending_record, launched_record, launch_reserved, commit, or_pending, launch_spec, launch_with,
  user_data_params, create_valid, create_sandbox,
}

module _ (platform : Platform) {S : Type 0} (provider : Provider S) (config : Config) where
  -- The sandbox's record stands in the registry with the instance that the provider launched for
  -- its ID, and without the token.
  pub record IsCommitted (sb : DriverSandbox) (w : World S) : Type 0 where
    pub asked : LaunchSpec
    pub before : World S
    pub launched : Instance
    pub answer : (provider.launch asked before).0 ≡ ok launched
    pub for_sandbox : asked.sandbox_id ≡ sb.id
    pub rec : Record
    pub tracked : lookup sb.id w.registry.records ≡ some rec
    pub same_instance : rec.instance_id ≡ launched.id
    pub same_age : rec.created_at ≡ launched.created_at
    pub redacted : SpecIsRedacted rec.spec

  abbrev pub Commits : DriverSandbox → Result Status (Unit {0}) × World S → Type 0
  Commits sb = Ensures (IsCommitted sb)

  module _ (sb : DriverSandbox) where
    commit-Commits :
        (asked : LaunchSpec) (before w : World S) (time : Time) (i : Instance)
        → asked.sandbox_id ≡ sb.id
        → (provider.launch asked before).0 ≡ ok i
        → Commits sb (commit platform provider config sb time (or_pending i) w)
    unfolding commit launched_record clone_record
    commit-Commits asked before w time i for_it answer =
        let f = launched_record (or_pending i) time in
        elim (Option-cases (lookup sb.id w.registry.records)) [
          | inl e ↦ rw (update-none w.registry sb.id f e) tt
          | inr (rec, e) ↦ rw (update-some w.registry sb.id f rec e) (record {
            asked = asked;
            before = before;
            launched = i;
            answer = answer;
            for_sandbox = for_it;
            rec = clone_record (f rec);
            tracked = rw (records-broadcast_sandbox, lookup-insert, eq_refl sb.id) refl;
            same_instance = refl;
            same_age = refl;
            redacted = clone_redacted_spec-SpecIsRedacted rec.spec;
          })
        ]

    launch_with-Commits :
        (instance_type : String) (time : Time) (lifetime user_data : String) (w : World S)
        → Commits sb
            (launch_with platform provider config sb instance_type time lifetime user_data w)
    unfolding launch_with launch_spec
    launch_with-Commits instance_type time lifetime user_data w =
        let asked = launch_spec platform provider config sb instance_type user_data time lifetime in
        called-Ensures (IsCommitted sb) w provider_error (provider.launch asked w)
          (λ i. commit platform provider config sb time (or_pending i))
          λ i w' answer _. commit-Commits asked w w' time i refl answer

    launch_reserved-Commits :
        (instance_type : String) (time : Time) (w : World S)
        → Commits sb (launch_reserved platform provider config sb instance_type time w)
    unfolding launch_reserved
    launch_reserved-Commits instance_type time w =
        let lifetime = platform.duration_text (effective_max_age w.registry.limits) in
        lift-Ensures (IsCommitted sb) w bootstrap_status
          (render_user_data platform.library
            (user_data_params platform provider config sb lifetime))
          (launch_with platform provider config sb instance_type time lifetime)
          λ user_data. launch_with-Commits instance_type time lifetime user_data w

    reserve_then-Commits :
        (instance_type : String) (w : World S)
        → Commits sb (
            (try_reserve (pending_record sb w.clock)
                >> rolling_back sb.id
                    (launch_reserved platform provider config sb instance_type w.clock))
              w)
    unfolding try_reserve rolling_back
    reserve_then-Commits instance_type w =
        let x = reserve w.registry (pending_record sb w.clock) in
        let w' : World S = record w { registry = x.0 } in
        let body = launch_reserved platform provider config sb instance_type w.clock in
        lift-Ensures (IsCommitted sb) w' reserve_status x.1 (λ _. rolling_back sb.id body)
          λ _.
            undo-Ensures (IsCommitted sb) sb.id (body w')
              (launch_reserved-Commits instance_type w.clock w')

    create_valid-Commits : (w : World S) → Commits sb (create_valid platform provider config sb w)
    unfolding create_valid
    create_valid-Commits w =
        lift-Ensures (IsCommitted sb) w sizing_status
          (select_instance_type platform.floats platform.sorter
            (get_resources (get_template sb.spec)) config.default_instance)
          (λ instance_type w'.
            (do
              created_at ← now
              try_reserve (pending_record sb created_at)
              rolling_back sb.id
                  (launch_reserved platform provider config sb instance_type created_at))
              w')
          λ instance_type. reserve_then-Commits instance_type w

  -- A creation that succeeds has committed the instance that the provider launched: its record
  -- stands in the registry, redacted, with the instance's ID and age.
  pub create_sandbox-IsCommitted :
      (sb : DriverSandbox) (w w' : World S)
      → create_sandbox platform provider config (some sb) w ≡ (ok tt, w')
      → IsCommitted sb w'
  unfolding create_sandbox
  create_sandbox-IsCommitted sb w w' h = subst (Commits sb) h (
      lift-Ensures (IsCommitted sb) w invalid_status (validate_sandbox platform.floats (some sb))
        (λ _. create_valid platform provider config sb) λ _. create_valid-Commits sb w)
