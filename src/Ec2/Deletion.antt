-- ===== src/Ec2/Deletion.antt =====
-- `DeleteSandbox` of drivers/ec2/driver.go, by ID.
use openshell_drivers_contri.Prelude.{
  ℕ, ◌≡◌, refl, ap, String, not, true, false, none, some, List, [], ◌∷◌, ◌==◌, if◌then◌else◌,
  select, All, ◌∙◌,
}
use openshell_drivers_contri.Prelude.Assoc.{lookup, lookup-insert}
use openshell_drivers_contri.Prelude.Result.{ok}
use openshell_drivers_contri.Safeguards.Records.{Record, clone_record}
use openshell_drivers_contri.Service.{World}
use openshell_drivers_contri.Ec2.Config.{Config}
use openshell_drivers_contri.Ec2.Provider.{Instance, Provider}
use openshell_drivers_contri.Ec2.Conditions.{sandbox_status}
use openshell_drivers_contri.Safeguards.Lookups.{update-some, get-some, get-none}
use openshell_drivers_contri.Safeguards.Lookups.{records-broadcast_sandbox}
use openshell_drivers_contri.Ec2.Resolve.{
  is_terminated, adopt, ask_provider, resolve_id, resolve, delete_resolved, delete_sandbox, move_to,
  not_resolved,
}

no_live_instance :
    (is : List Instance)
    → All (λ i. is_terminated i ≡ true) is
    → select (λ i. not (is_terminated i)) is ≡ []
no_live_instance [] h = refl
no_live_instance (i ∷ is) h = rw (h.0, no_live_instance is h.1) refl

-- What a deletion that was asked for makes of a record.
abbrev pub shutting_down : Record → ℕ → Record
shutting_down rec time = record rec {
  state = "shutting-down";
  last_status = some (sandbox_status rec.name rec.instance_id "shutting-down" time);
}

module _ {S : Type 0} (provider : Provider S) (config : Config) (id : String)
    (given : (id == "") ≡ false) where
  -- The ID of a sandbox that is not tracked, and of which the provider lists only terminated
  -- instances, is deleted already: the answer is `false` and no error, and nothing
  -- but the provider's listing has touched the world.
  pub delete_sandbox-unknown :
      (w w' : World S) (is : List Instance)
      → lookup id w.registry.records ≡ none
      → provider.list (record { gateway_id = config.gateway_id; sandbox_id = id; name = "" }) w
        ≡ (ok is, w')
      → All (λ i. is_terminated i ≡ true) is
      → delete_sandbox provider config id "" w ≡ (ok false, w')
  unfolding delete_sandbox resolve resolve_id ask_provider adopt not_resolved delete_resolved
  delete_sandbox-unknown w w' is unknown listed gone =
      rw (given, get-none w.registry id unknown, listed, no_live_instance is gone) refl

  -- The deletion, by its ID, of a tracked sandbox with an instance asks the provider to terminate that
  -- instance. If it agrees, and the ID is still tracked when it answers, whatever else has changed
  -- meanwhile, then the record that stands there by then is marked and no other, and the answer is
  -- `true`.
  pub delete_sandbox-tracked :
      (w w' : World S) (rec current : Record)
      → lookup id w.registry.records ≡ some rec
      → rec.sandbox_id ≡ id
      → (rec.instance_id == "") ≡ false
      → provider.terminate (rec.instance_id ∷ []) w ≡ (ok tt, w')
      → lookup id w'.registry.records ≡ some current
      → ((delete_sandbox provider config id "" w).0 ≡ ok true)
        × ((other : String)
            → lookup other (delete_sandbox provider config id "" w).1.registry.records ≡ (
                if id == other
                then some (clone_record (shutting_down current w'.clock))
                else lookup other w'.registry.records))
  unfolding delete_sandbox resolve resolve_id delete_resolved move_to clone_record
  delete_sandbox-tracked w w' rec current tracked keyed bound agreed still =
      let stored : lookup rec.sandbox_id w'.registry.records ≡ some current =
        ap (λ k. lookup k w'.registry.records) keyed ∙ still in
      let f : Record → Record = λ r. shutting_down r w'.clock in
      let updated = update-some w'.registry rec.sandbox_id f current stored in
      (
        rw (given, get-some w.registry id rec tracked, bound, agreed) refl,
        λ other.
            rw
              (
                given,
                get-some w.registry id rec tracked,
                bound,
                agreed,
                updated,
                records-broadcast_sandbox,
                lookup-insert,
              )
              (ap
                (λ k.
                  if k == other
                  then some (clone_record (shutting_down current w'.clock))
                  else lookup other w'.registry.records)
                keyed),
      )
