-- ===== src/Safeguards/Elsewhere.antt =====
-- What the methods of pkg/safeguards/safeguards.go on one sandbox leave of another's record.
use openshell_drivers_contri.Prelude.{
  ◌≡◌, refl, String, false, ◌==◌, Option-cases, inl, inr, some, arith,
}
use openshell_drivers_contri.Prelude.Assoc.{lookup, lookup-insert, lookup-erase}
use openshell_drivers_contri.Safeguards.Records.{Record}
use openshell_drivers_contri.Safeguards.Registry.{
  Registry, update, delete, add, store, add_one_uint64,
}
use openshell_drivers_contri.Safeguards.Lookups.{update-some, update-none, records-delete}

module _ (r : Registry) (sid id : String) (other : (sid == id) ≡ false) where
  pub update_other :
      (f : Record → Record) → lookup id (update r sid f).0.records ≡ lookup id r.records
  update_other f = elim (Option-cases (lookup sid r.records)) [
    | inl e ↦ rw (update-none r sid f e) refl
    | inr (old, e) ↦ rw (update-some r sid f old e, lookup-insert, other) refl
  ]

  pub delete_other : lookup id (delete r sid).0.records ≡ lookup id r.records
  delete_other = rw (records-delete, lookup-erase, other) refl

pub add_other :
    (r : Registry) (rec : Record) (id : String)
    → (rec.sandbox_id == id) ≡ false
    → lookup id (add r (some rec)).0.records ≡ lookup id r.records
unfolding add
add_other r rec id other =
    let lease = add_one_uint64 r.next_lease in
    ground (
      arith,
      stored (record rec { lease = lease }) (record r { next_lease = lease }) refl refl,
      stored rec r refl refl,
    )
  where
    stored :
        (rec' : Record) (r' : Registry)
        → rec'.sandbox_id ≡ rec.sandbox_id
        → r'.records ≡ r.records
        → lookup id (store rec.sandbox_id rec' r').records ≡ lookup id r.records
    stored rec' r' same kept = rw (lookup-insert, other, kept) refl
