-- ===== src/Ec2/Missing.antt =====
-- What `poll` of drivers/ec2/watcher.go does to records whose instance was not listed.
use openshell_drivers_contri.Prelude.{
  ◌+◌, ◌≡◌, refl, String, false, Option, none, some, List, arith, ◌==◌, leb, if◌then◌else◌,
  Bool-cases, inl, inr,
}
use openshell_drivers_contri.Prelude.Assoc.{lookup, lookup-insert, lookup-erase}
use openshell_drivers_contri.Safeguards.Records.{Record, clone_record}
use openshell_drivers_contri.Safeguards.Registry.{update, update_if}
use openshell_drivers_contri.Safeguards.Lookups.{
  records-broadcast_deleted, records-delete, update-some,
}
use openshell_drivers_contri.Service.{World}
use openshell_drivers_contri.Service.Grouping.{has_text}
use openshell_drivers_contri.Ec2.Poll.{miss}

-- The record after one more poll without its instance; none at the threshold.
abbrev pub missed : Record → Option Record
missed rec =
    if leb 3 (rec.missing_polls + 1)
    then none
    else some (clone_record (record rec { missing_polls = rec.missing_polls + 1 }))

module _ {S : Type 0} (seen : List String) where
  -- A tracked record with an instance that was not seen counts one more poll, and is dropped at the
  -- third; the other records stay.
  pub miss-unseen :
      (rec : Record) (w : World S) (id : String)
      → (rec.instance_id == "") ≡ false
      → has_text rec.sandbox_id seen ≡ false
      → lookup rec.sandbox_id w.registry.records ≡ some rec
      → lookup id (miss seen rec w).registry.records
        ≡ (if rec.sandbox_id == id then missed rec else lookup id w.registry.records)
  unfolding miss update update_if clone_record
  miss-unseen rec w id bound unseen tracked =
      let f : Record → Record =
        λ current. record current { missing_polls = current.missing_polls + 1 } in
      let updated = update-some w.registry rec.sandbox_id f rec tracked in
      elim (Bool-cases (leb 3 (rec.missing_polls + 1))) [
        | inl gone ↦
            rw
              (
                bound, unseen, updated, gone, records-broadcast_deleted, records-delete,
                lookup-erase, lookup-insert,
              )
              (ground arith)
        | inr kept ↦ rw (bound, unseen, updated, kept, lookup-insert) refl
      ]
