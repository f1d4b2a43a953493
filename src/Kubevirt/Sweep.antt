-- ===== src/Kubevirt/Sweep.antt =====
-- The second half of `poll` of drivers/kubevirt/watcher.go: the records whose machine was not seen, and
-- those that have expired.
use openshell_drivers_contri.Prelude.{
  ℕ, ◌+◌, String, Bool, ◌&&◌, ◌||◌, some, List, [], ◌∷◌, eqb, leb, ◌==◌, if◌then◌else◌,
}
use openshell_drivers_contri.Prelude.Result.{Result, ok, err}
use openshell_drivers_contri.Safeguards.Records.{Time, Record}
use openshell_drivers_contri.Safeguards.Registry as Registry
use openshell_drivers_contri.Service.{World}
use openshell_drivers_contri.Service.Grouping.{has_text}
use openshell_drivers_contri.Kubevirt.Provider.{Failure, VmProvider}
use openshell_drivers_contri.Kubevirt.Conditions.{sandbox_status}
use openshell_drivers_contri.Kubevirt.Resolve.{announce_if}

abbrev pub missing_poll_threshold : ℕ
missing_poll_threshold = 3

-- The predicate of the updates and the deletion: the record is still that of the same lease and
-- machine.
unfoldable pub is_same : Record → Record → Bool
is_same rec current = eqb current.lease rec.lease && current.instance_id == rec.instance_id

unfoldable pub is_still_missing : Record → Record → Bool
unfolding is_same
is_still_missing rec current =
    is_same rec current && leb missing_poll_threshold current.missing_polls

unfoldable pub counted : Record → Record
counted r = record r { missing_polls = r.missing_polls + 1 }

unfoldable pub being_deleted : Time → Record → Record
being_deleted time r = record r {
  state = "deleting";
  last_status = some (sandbox_status r.name r.instance_id "deleting" time);
}

module _ {S : Type 0} (provider : VmProvider S) where
  -- The record of a machine that is gone is dropped only once a termination has confirmed that
  -- nothing of the machine is left.
  unfoldable pub confirmed : String → Record → Result Failure (Unit {0}) × World S → World S
  unfolding is_still_missing
  confirmed id updated (err _, w) = w
  confirmed id updated (ok _, w) =
      let (r, _, found) = Registry.delete_if w.registry id (some (is_still_missing updated)) in
      record w { registry = if found then Registry.broadcast_deleted r id else r }

  -- A record whose sandbox was seen in no machine.
  unfoldable pub miss : List String → Record → World S → World S
  unfolding confirmed is_same counted
  miss seen rec w =
      let (r, updated, found) =
        Registry.update_if w.registry rec.sandbox_id (some (is_same rec)) counted in
      let w' : World S = record w { registry = r } in
      if rec.instance_id == "" || has_text rec.sandbox_id seen
      then w
      else if found && leb missing_poll_threshold updated.missing_polls
      then confirmed rec.sandbox_id updated (provider.terminate updated.instance_id w')
      else w'

  unfoldable pub miss_all : List String → List Record → World S → World S
  unfolding miss
  miss_all seen [] w = w
  miss_all seen (rec ∷ recs) w = miss_all seen recs (miss seen rec w)

  unfoldable pub after_termination : Record → Result Failure (Unit {0}) × World S → World S
  unfolding is_same being_deleted
  after_termination rec (err _, w) = w
  after_termination rec (ok _, w) =
      announce_if w
        (Registry.update_if w.registry rec.sandbox_id (some (is_same rec)) (being_deleted w.clock))

  -- A termination that fails is tried again by the next poll.
  unfoldable pub expire : Record → World S → World S
  unfolding after_termination
  expire rec w =
      if rec.instance_id == "" || rec.state == "deleting"
      then w
      else after_termination rec (provider.terminate rec.instance_id w)

  unfoldable pub expire_all : List Record → World S → World S
  unfolding expire
  expire_all [] w = w
  expire_all (rec ∷ recs) w = expire_all recs (expire rec w)

  -- The rounds over all records, and over those that have expired by then.
  unfoldable pub sweep : List String → World S → World S
  unfolding miss_all expire_all
  sweep seen w =
      let w' = miss_all seen (Registry.all w.registry) w in
      expire_all (Registry.expired w'.registry w'.clock) w'
