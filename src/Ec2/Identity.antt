-- ===== src/Ec2/Identity.antt =====
-- What the AWS adapter of drivers/ec2/ec2.go guarantees to the driver.
use openshell_drivers_contri.Prelude.{
  ◌≡◌, subst, sym, false, Option, none, some, List, [], ◌∷◌, ◌==◌, Bool-cases, inl, inr,
}
use openshell_drivers_contri.Prelude.Assoc.{lookup}
use openshell_drivers_contri.Prelude.Result.{Result, ok, err}
use openshell_drivers_contri.Proto.Messages.{DriverSandbox}
use openshell_drivers_contri.Safeguards.Records.{Record}
use openshell_drivers_contri.Service.{World}
use openshell_drivers_contri.Service.Actions.{Platform}
use openshell_drivers_contri.Ec2.Config.{Config}
use openshell_drivers_contri.Ec2.Provider.{LaunchSpec, Instance, Failure}
use openshell_drivers_contri.Ec2.Adapter.{
  RawInstance, Ec2Api, normalize_instance, filled_in, launched, after_run, launch, aws_provider,
  plain_failure, launch_input,
}
use openshell_drivers_contri.Ec2.Create.{create_sandbox}
use openshell_drivers_contri.Ec2.Commitment.{create_sandbox-IsCommitted}

module _ {S : Type 0} (api : Ec2Api S) where
  launched-named :
      (spec : LaunchSpec) (output : Option (List RawInstance)) (w : World S) (i : Instance)
      → (launched api spec output w).0 ≡ ok i
      → (i.id == "") ≡ false
  unfolding launched filled_in
  launched-named spec none w i h = absurd (cc)
  launched-named spec (some []) w i h = absurd (cc)
  launched-named spec (some (raw ∷ raw' ∷ rest)) w i h = absurd (cc)
  launched-named spec (some (raw ∷ [])) w i h =
      elim (Bool-cases ((normalize_instance api raw).id == "")) [
        | inl empty ↦ absurd (refused (rw empty at h))
        | inr named ↦ kept (rw named at h) named
      ]
    where
      refused : ◌≡◌ {A = Result Failure Instance} (err (plain_failure api w)) (ok i) → ⊥
      refused e = cc

      kept :
          ◌≡◌ {A = Result Failure Instance}
            (ok (filled_in api spec (normalize_instance api raw)))
            (ok i)
          → ((normalize_instance api raw).id == "") ≡ false
          → (i.id == "") ≡ false
      kept e named =
          let same : filled_in api spec (normalize_instance api raw) ≡ i = cc in
          subst (λ x. (x.id == "") ≡ false) same named

  launch-named :
      (spec : LaunchSpec) (w : World S) (i : Instance)
      → (launch api spec w).0 ≡ ok i
      → (i.id == "") ≡ false
  unfolding launch
  launch-named spec w i h = of_answer (api.run_instances (launch_input api spec) w) h
    where
      of_answer :
          (x : Result Failure (Option (List RawInstance)) × World S)
          → (after_run api spec x).0 ≡ ok i
          → (i.id == "") ≡ false
      of_answer (err f, w') h = unfold after_run in absurd (cc)
      of_answer (ok output, w') h = launched-named spec output w' i (unfold after_run in h)

  -- A sandbox that is created over the AWS adapter is tracked with the ID of an instance: its record
  -- is never taken for a reservation in flight.
  pub create_sandbox-identified :
      (platform : Platform) (config : Config) (sb : DriverSandbox) (w w' : World S)
      → create_sandbox platform (aws_provider api) config (some sb) w ≡ (ok tt, w')
      → (rec : Record) × (lookup sb.id w'.registry.records ≡ some rec)
        × ((rec.instance_id == "") ≡ false)
  unfolding aws_provider
  create_sandbox-identified platform config sb w w' h =
      let committed = create_sandbox-IsCommitted platform (aws_provider api) config sb w w' h in
      (
        committed.rec,
        committed.tracked,
        subst (λ id. (id == "") ≡ false) (sym committed.same_instance)
            (launch-named committed.asked committed.before committed.launched committed.answer),
      )
