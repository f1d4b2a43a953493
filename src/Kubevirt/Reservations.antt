-- ===== src/Kubevirt/Reservations.antt =====
-- What `poll` of drivers/kubevirt/watcher.go leaves alone: the reservations of creations in flight.
use openshell_drivers_contri.Prelude.{
  ◌≡◌, ap, ◌∙◌, eq_iff, String, Bool, true, false, some, List, [], ◌∷◌, arith, ◌==◌, leb, ◌&&◌,
  ◌||◌, Bool-cases, inl, inr,
}
use openshell_drivers_contri.Prelude.Assoc.{lookup}
use openshell_drivers_contri.Prelude.Result.{Result, ok, err}
use openshell_drivers_contri.Safeguards.Records.{Record, zero_record, clone_record}
use openshell_drivers_contri.Safeguards.Registry.{Registry, update_if, delete_if}
use openshell_drivers_contri.Safeguards.Registry as Registry
use openshell_drivers_contri.Safeguards.Lookups.{
  update_if-Spares, delete_if-Spares, update_if-refused, records-broadcast_deleted,
  records-broadcast_sandbox,
}
use openshell_drivers_contri.Service.{World}
use openshell_drivers_contri.Service.Grouping.{has_text}
use openshell_drivers_contri.Kubevirt.Provider.{Failure, VmProvider}
use openshell_drivers_contri.Kubevirt.Resolve.{announce_if}
use openshell_drivers_contri.Kubevirt.Sweep.{
  is_same, is_still_missing, counted, being_deleted, confirmed, miss, miss_all, after_termination,
  expire, expire_all, sweep,
}
use openshell_drivers_contri.Kubevirt.Absence.{TerminateKeepsRecords}

is_same-in_flight :
    (other rec : Record)
    → rec.instance_id ≡ ""
    → (other.instance_id == "") ≡ false
    → is_same other (clone_record rec) ≡ false
unfolding is_same clone_record
is_same-in_flight other rec in_flight bound =
    rw in_flight (ground (arith, bound, eq_iff "" other.instance_id, eq_iff other.instance_id ""))

module _ {S : Type 0} (provider : VmProvider S) (keeps : TerminateKeepsRecords provider)
    (id : String) (rec : Record) (in_flight : rec.instance_id ≡ "") where
  -- The reservation is tracked.
  abbrev Tracked : World S → Type 0
  Tracked w = lookup id w.registry.records ≡ some rec

  confirmed-Tracked :
      (sid : String) (updated : Record) (x : Result Failure (Unit {0}) × World S)
      → (sid == id) ≡ false
      → Tracked x.1
      → Tracked (confirmed provider sid updated x)
  unfolding confirmed
  confirmed-Tracked sid updated (err f, w) differ h = h
  confirmed-Tracked sid updated (ok _, w) differ h =
      let guard = is_still_missing updated in
      let spared = delete_if-Spares w.registry sid id guard rec h (λ same. absurd (cc)) in
      elim (Bool-cases (delete_if w.registry sid (some guard)).2) [
        | inl found ↦ rw (found, records-broadcast_deleted) spared
        | inr none ↦ rw none spared
      ]

  bound_of :
      (other : Record) (b : Bool)
      → (other.instance_id == "" || b) ≡ false
      → (other.instance_id == "") ≡ false
  bound_of other b h = ground arith

  -- The guard of a record with a machine refuses the reservation.
  refused :
      (other : Record) (w : World S) (f : Record → Record)
      → (other.instance_id == "") ≡ false
      → (other.sandbox_id == id) ≡ true
      → Tracked w
      → update_if w.registry other.sandbox_id (some (is_same other)) f
        ≡ (w.registry, zero_record, false)
  refused other w f bound same h =
      update_if-refused w.registry other.sandbox_id (is_same other) f rec
        (ap (λ x. lookup x w.registry.records) ((eq_iff other.sandbox_id id).0 same) ∙ h)
        (is_same-in_flight other rec in_flight bound)

  miss-Tracked :
      (seen : List String) (other : Record) (w : World S)
      → Tracked w
      → Tracked (miss provider seen other w)
  unfolding miss
  miss-Tracked seen other w h =
      elim (Bool-cases (other.instance_id == "" || has_text other.sandbox_id seen)) [
        | inl skipped ↦ rw skipped h
        | inr treated ↦
            (let bound = bound_of other (has_text other.sandbox_id seen) treated in
              let u = update_if w.registry other.sandbox_id (some (is_same other)) counted in
              let w' : World S = record w { registry = u.0 } in
              elim (Bool-cases (other.sandbox_id == id)) [
                | inl same ↦ rw (treated, refused other w counted bound same h) h
                | inr differ ↦
                    (let kept =
                        update_if-Spares w.registry other.sandbox_id id (is_same other) rec h
                          (λ same. absurd (cc)) counted in
                      elim (Bool-cases (u.2 && leb 3 u.1.missing_polls)) [
                        | inr few ↦ rw (treated, few) kept
                        | inl many ↦
                            rw (treated, many)
                              (confirmed-Tracked other.sandbox_id u.1
                                (provider.terminate u.1.instance_id w') differ
                                (ap (lookup id) (keeps u.1.instance_id w') ∙ kept))
                      ])
              ])
      ]

  miss_all-Tracked :
      (seen : List String) (others : List Record) (w : World S)
      → Tracked w
      → Tracked (miss_all provider seen others w)
  unfolding miss_all
  miss_all-Tracked seen [] w h = h
  miss_all-Tracked seen (other ∷ others) w h =
      miss_all-Tracked seen others (miss provider seen other w) (miss-Tracked seen other w h)

  after_termination-Tracked :
      (other : Record) (x : Result Failure (Unit {0}) × World S)
      → (other.instance_id == "") ≡ false
      → Tracked x.1
      → Tracked (after_termination provider other x)
  unfolding after_termination announce_if
  after_termination-Tracked other (err f, w) bound h = h
  after_termination-Tracked other (ok _, w) bound h =
      let f = being_deleted w.clock in
      let u = update_if w.registry other.sandbox_id (some (is_same other)) f in
      let kept =
        update_if-Spares w.registry other.sandbox_id id (is_same other) rec h
          (λ same. is_same-in_flight other rec in_flight bound) f in
      elim (Bool-cases u.2) [
        | inl found ↦ rw (found, records-broadcast_sandbox) kept
        | inr none ↦ rw none kept
      ]

  expire-Tracked : (other : Record) (w : World S) → Tracked w → Tracked (expire provider other w)
  unfolding expire
  expire-Tracked other w h =
      elim (Bool-cases (other.instance_id == "" || other.state == "deleting")) [
        | inl skipped ↦ rw skipped h
        | inr treated ↦ rw treated (
            after_termination-Tracked other (provider.terminate other.instance_id w)
              (bound_of other (other.state == "deleting") treated)
              (ap (lookup id) (keeps other.instance_id w) ∙ h))
      ]

  expire_all-Tracked :
      (others : List Record) (w : World S) → Tracked w → Tracked (expire_all provider others w)
  unfolding expire_all
  expire_all-Tracked [] w h = h
  expire_all-Tracked (other ∷ others) w h =
      expire_all-Tracked others (expire provider other w) (expire-Tracked other w h)

-- The rounds of a poll over missing and expired machines leave a reservation in flight as it is,
-- whatever they find, where terminations leave the records alone.
pub sweep-in_flight :
    {S : Type 0} (provider : VmProvider S) (seen : List String) (w : World S) (id : String)
    (rec : Record)
    → TerminateKeepsRecords provider
    → lookup id w.registry.records ≡ some rec
    → rec.instance_id ≡ ""
    → lookup id (sweep provider seen w).registry.records ≡ some rec
unfolding sweep
sweep-in_flight provider seen w id rec keeps tracked in_flight =
    let w' = miss_all provider seen (Registry.all w.registry) w in
    expire_all-Tracked provider keeps id rec in_flight (Registry.expired w'.registry w'.clock) w'
      (miss_all-Tracked provider keeps id rec in_flight seen (Registry.all w.registry) w tracked)
