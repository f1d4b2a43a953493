-- ===== src/Kubevirt/Marking.antt =====
-- A deletion that arrives while the creation of drivers/kubevirt/driver.go waits for the launch.
use openshell_drivers_contri.Prelude.{
  ℕ, ◌≡◌, refl, String, true, false, some, List, ◌∷◌, arith, eq_refl,
}
use openshell_drivers_contri.Prelude.Assoc.{lookup, lookup-insert}
use openshell_drivers_contri.Safeguards.Records.{Time, Record, zero_record, clone_record}
use openshell_drivers_contri.Safeguards.Registry.{update_if}
use openshell_drivers_contri.Safeguards.Lookups.{records-broadcast_sandbox, update_if-refused}
use openshell_drivers_contri.Service.{World}
use openshell_drivers_contri.Kubevirt.Resolve.{may_be_marked, marked, mark_first, announce_if}
use openshell_drivers_contri.Kubevirt.Create.{may_commit, commit, could_not_commit, launched_record}
use openshell_drivers_contri.Kubevirt.Config.{Config}
use openshell_drivers_contri.Kubevirt.Provider.{VmInstance, VmProvider}
use openshell_drivers_contri.Prelude.Result.{err}
use openshell_drivers_contri.Proto.Messages.{DriverSandbox}
use openshell_drivers_contri.Service.Actions.{Platform}

marked_refused :
    (lease : ℕ) (time : ℕ) (rec : Record)
    → may_commit lease (clone_record (clone_record (marked time rec))) ≡ false
unfolding may_commit clone_record marked
marked_refused lease time rec = ground arith

module _ {S : Type 0} (rec : Record) (recs : List Record) (w : World S) where
  lookup-mark_first :
      (current : Record)
      → lookup rec.sandbox_id w.registry.records ≡ some current
      → may_be_marked rec (clone_record current) ≡ true
      → lookup rec.sandbox_id (mark_first (rec ∷ recs) w).1.registry.records
        ≡ some (clone_record (marked w.clock current))
  unfolding mark_first update_if announce_if
  lookup-mark_first current stored fits =
      rw (update_if, stored, fits, records-broadcast_sandbox, lookup-insert, eq_refl rec.sandbox_id)
        refl

  -- A deletion that marks a reservation in flight prevails: the update with which the creation
  -- commits is refused, whatever its lease.
  pub mark_first-refuses :
      (current : Record) (lease : ℕ) (f : Record → Record)
      → lookup rec.sandbox_id w.registry.records ≡ some current
      → may_be_marked rec (clone_record current) ≡ true
      → update_if (mark_first (rec ∷ recs) w).1.registry rec.sandbox_id (some (may_commit lease)) f
        ≡ ((mark_first (rec ∷ recs) w).1.registry, zero_record, false)
  mark_first-refuses current lease f stored fits =
      update_if-refused (mark_first (rec ∷ recs) w).1.registry rec.sandbox_id (may_commit lease) f
        (clone_record (marked w.clock current)) (lookup-mark_first current stored fits)
        (marked_refused lease w.clock current)

  -- A deletion that marks a reservation in flight prevails over the commit, whatever its lease and
  -- machine: the commit fails, after it has asked the provider to terminate the machine, whatever
  -- that answers, in a world whose records are as the deletion left them; there the reservation's is
  -- marked.
  pub commit-marked :
      (platform : Platform) (calendar : Time → String) (provider : VmProvider S) (config : Config)
      (sb : DriverSandbox) (current : Record) (lease : ℕ) (time : Time) (i : VmInstance)
      → sb.id ≡ rec.sandbox_id
      → lookup rec.sandbox_id w.registry.records ≡ some current
      → may_be_marked rec (clone_record current) ≡ true
      → (let w' = (mark_first (rec ∷ recs) w).1 in
          (commit platform calendar provider config sb lease time i w'
            ≡ (err could_not_commit, (provider.terminate i.vm_name w').1))
          × ((marked_rec : Record) × (lookup rec.sandbox_id w'.registry.records ≡ some marked_rec)
              × (marked_rec.state ≡ "delete-requested")))
  unfolding commit clone_record marked
  commit-marked platform calendar provider config sb current lease time i same stored fits = (
    rw (same, mark_first-refuses current lease (launched_record i time) stored fits) refl,
    (clone_record (marked w.clock current), lookup-mark_first current stored fits, refl),
  )
