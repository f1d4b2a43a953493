-- ===== src/Kubevirt/Absence.antt =====
-- What `poll` of drivers/kubevirt/watcher.go does to records whose machine was not listed.
use openshell_drivers_contri.Prelude.{
  ◌+◌, ◌≡◌, refl, sym, ap, ◌∙◌, eq_iff, String, Bool, true, false, Option, none, some, List, arith,
  ◌==◌, leb, ◌&&◌, if◌then◌else◌, Bool-cases, inl, inr, eq_refl,
}
use openshell_drivers_contri.Prelude.Assoc.{lookup, lookup-insert, lookup-erase}
use openshell_drivers_contri.Prelude.Result.{Result, ok, err}
use openshell_drivers_contri.Safeguards.Records.{Record, clone_record}
use openshell_drivers_contri.Safeguards.Registry.{store}
use openshell_drivers_contri.Safeguards.Lookups.{
  update_if-accepted, delete_if-accepted, records-broadcast_deleted,
}
use openshell_drivers_contri.Service.{World}
use openshell_drivers_contri.Service.Grouping.{has_text}
use openshell_drivers_contri.Kubevirt.Provider.{Failure, VmProvider}
use openshell_drivers_contri.Kubevirt.Sweep.{is_same, is_still_missing, counted, confirmed, miss}

-- A termination leaves the registry's records alone: no other goroutine changes them while it waits.
abbrev pub TerminateKeepsRecords : {S : Type 0} → VmProvider S → Type 0
TerminateKeepsRecords {S} provider =
    (name : String) (w : World S)
    → (provider.terminate name w).1.registry.records ≡ w.registry.records

-- Whether a call of the provider went well.
abbrev pub succeeds : {A B : Type 0} → Result Failure A × B → Bool
succeeds (ok _, w) = true
succeeds (err f, w) = false

is_same_refl : (rec : Record) → is_same rec (clone_record rec) ≡ true
unfolding is_same clone_record
is_same_refl rec = rw (eq_refl rec.instance_id) (ground arith)

counted-is_still_missing :
    (rec : Record)
    → leb 3 (rec.missing_polls + 1) ≡ true
    → (let after = clone_record (clone_record (counted rec)) in is_still_missing after after ≡ true)
unfolding is_still_missing is_same counted clone_record
counted-is_still_missing rec gone = rw (eq_refl rec.instance_id, gone) (ground arith)

lookup-same :
    (sid id : String) (records : List (String × Record)) (o : Option Record)
    → lookup sid records ≡ o
    → lookup id records ≡ (if sid == id then o else lookup id records)
lookup-same sid id records o e = elim (Bool-cases (sid == id)) [
  | inl same ↦ rw same (ap (λ x. lookup x records) (sym ((eq_iff sid id).0 same)) ∙ e)
  | inr other ↦ rw other refl
]

module _ {S : Type 0} (provider : VmProvider S) where
  lookup-confirmed :
      (sid id : String) (updated stored : Record) (x : Result Failure (Unit {0}) × World S)
      → lookup sid x.1.registry.records ≡ some stored
      → is_still_missing updated (clone_record stored) ≡ true
      → lookup id (confirmed provider sid updated x).registry.records ≡ (
          if sid == id
          then (if succeeds x then none else some stored)
          else lookup id x.1.registry.records)
  unfolding confirmed
  lookup-confirmed sid id updated stored (err f, w) tracked missing =
      lookup-same sid id w.registry.records (some stored) tracked
  lookup-confirmed sid id updated stored (ok _, w) tracked missing =
      rw
        (
          delete_if-accepted w.registry sid (is_still_missing updated) stored tracked missing,
          records-broadcast_deleted,
          lookup-erase,
        )
        refl

  -- The world in which the record has counted one more poll without its machine.
  abbrev pub after_count : Record → World S → World S
  after_count rec w = record w { registry = store rec.sandbox_id (counted rec) w.registry }

  -- A tracked record with a machine that was not seen counts one more poll; from the third on it is
  -- dropped, but only if a termination of the machine succeeds. The other records stay, where
  -- terminations leave the records alone.
  pub miss-absent :
      (seen : List String) (rec : Record) (w : World S) (id : String)
      → TerminateKeepsRecords provider
      → (rec.instance_id == "") ≡ false
      → has_text rec.sandbox_id seen ≡ false
      → lookup rec.sandbox_id w.registry.records ≡ some rec
      → lookup id (miss provider seen rec w).registry.records ≡ (
          if rec.sandbox_id == id
          then (if leb 3 (rec.missing_polls + 1)
                && succeeds (provider.terminate rec.instance_id (after_count rec w))
              then none
              else some (clone_record (counted rec)))
          else lookup id w.registry.records)
  unfolding miss counted clone_record
  miss-absent seen rec w id keeps bound unseen tracked =
      let found =
        update_if-accepted w.registry rec.sandbox_id (is_same rec) counted rec tracked
          (is_same_refl rec) in
      let after = clone_record (counted rec) in
      let x = provider.terminate rec.instance_id (after_count rec w) in
      let kept_records = keeps rec.instance_id (after_count rec w) in
      let stored : lookup rec.sandbox_id x.1.registry.records ≡ some after =
        ap (lookup rec.sandbox_id) kept_records
        ∙ (rw
            (
              lookup-insert rec.sandbox_id rec.sandbox_id after w.registry.records,
              eq_refl rec.sandbox_id,
            )
            refl) in
      elim (Bool-cases (leb 3 (rec.missing_polls + 1))) [
        | inr kept ↦ rw (bound, unseen, found, kept, lookup-insert) refl
        | inl gone ↦
            rw
              (
                bound,
                unseen,
                found,
                gone,
                lookup-confirmed rec.sandbox_id id (clone_record after) after x stored
                    (counted-is_still_missing rec gone),
                kept_records,
                lookup-insert,
              )
              (ground arith)
      ]
