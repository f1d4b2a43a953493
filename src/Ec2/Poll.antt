-- ===== src/Ec2/Poll.antt =====
-- `Initialize` and `poll` of drivers/ec2/watcher.go: one round of reconciliation.
use openshell_drivers_contri.Prelude.{
  ◌+◌, String, not, ◌&&◌, ◌||◌, some, List, [], ◌∷◌, map, select, leb, ◌==◌, if◌then◌else◌,
}
use openshell_drivers_contri.Prelude.Result.{Result, ok, err}
use openshell_drivers_contri.Safeguards.Records.{Record}
use openshell_drivers_contri.Safeguards.Registry as Registry
use openshell_drivers_contri.Service.{World}
use openshell_drivers_contri.Ec2.Config.{Config}
use openshell_drivers_contri.Ec2.Provider.{Instance, Failure, Provider}
use openshell_drivers_contri.Ec2.Conditions.{sandbox_status}
use openshell_drivers_contri.Ec2.Observe.{
  missing_poll_threshold, sort_instances, by_sandbox, recovered_record, observed_record, differs,
  PollError, list_failed, duplicates_not_terminated, not_tracked,
}
use openshell_drivers_contri.Service.Grouping.{has_text}

module _ {S : Type 0} where
  abbrev with_registry : World S → Registry.Registry → World S
  with_registry w r = record w { registry = r }

  -- The completion of a termination: the record goes, and the watchers hear of it.
  unfoldable pub complete : String → World S → World S
  complete id w =
      let (r, _, found) = Registry.delete w.registry id in
      if found then with_registry w (Registry.broadcast_deleted r id) else with_registry w r

  -- An update by `f`, and a broadcast of what it returns, found or not.
  unfoldable pub announce : String → (Record → Record) → World S → World S
  announce id f w =
      let (r, updated, _) = Registry.update w.registry id f in
      with_registry w (Registry.broadcast_sandbox r updated)

  unfoldable pub tracked :
      String
      → Record
      → Registry.Registry × Result Registry.Error (Unit {0})
      → World S
      → Result PollError (Unit {0}) × World S
  tracked id rec (r, ok _) w = (ok tt, with_registry w (Registry.broadcast_sandbox r rec))
  tracked id rec (r, err e) w = (err (not_tracked id e), with_registry w r)

  unfoldable pub recover :
      Config → String → Instance → World S → Result PollError (Unit {0}) × World S
  unfolding tracked
  recover config id i w =
      let rec = recovered_record config w.clock i in
      tracked id rec (Registry.add w.registry (some rec)) w

  -- A record that is tracked already follows its instance; watchers hear of a change of state.
  unfoldable pub follow : String → Instance → Record → World S → World S
  follow id i rec w =
      if differs rec i
      then (let (r, updated, _) = Registry.update w.registry id (observed_record w.clock i) in
          if rec.state == i.state
          then with_registry w r
          else with_registry w (Registry.broadcast_sandbox r updated))
      else w

  -- The rest of a round for one sandbox ID, after the duplicates are dealt with.
  unfoldable pub settle :
      Config → String → Instance → World S → Result PollError (Unit {0}) × World S
  unfolding complete recover follow
  settle config id i w =
      let (rec, found) = Registry.get w.registry id in
      if i.state == "terminated"
      then (ok tt, complete id w)
      else if found
      then (ok tt, follow id i rec w)
      else recover config id i w

  -- A record whose sandbox was seen in no instance.
  unfoldable pub miss : List String → Record → World S → World S
  unfolding has_text
  miss seen rec w =
      let (r, updated, found) =
        Registry.update w.registry rec.sandbox_id
          (λ current. record current { missing_polls = current.missing_polls + 1 }) in
      if rec.instance_id == "" || has_text rec.sandbox_id seen
      then w
      else if found && leb missing_poll_threshold updated.missing_polls
      then with_registry w
          (Registry.broadcast_deleted (Registry.delete r rec.sandbox_id).0 rec.sandbox_id)
      else with_registry w r

  unfoldable pub miss_all : List String → List Record → World S → World S
  unfolding miss
  miss_all seen [] w = w
  miss_all seen (rec ∷ recs) w = miss_all seen recs (miss seen rec w)

-- The instances behind the oldest that are not terminated yet; there is a call only if there is a
-- second instance, and then also if there is no such one.
unfoldable pub duplicate_ids : List Instance → List String
duplicate_ids is = map (λ i. i.id) (select (λ i. not (i.state == "terminated")) is)

module _ {S : Type 0} (provider : Provider S) (config : Config) where
  abbrev pub continue :
      Result PollError (Unit {0}) × World S
      → (World S → Result PollError (Unit {0}) × World S)
      → Result PollError (Unit {0}) × World S
  continue (ok _, w) next = next w
  continue (err e, w) next = (err e, w)

  abbrev pub refused :
      String → Result Failure (Unit {0}) × World S → Result PollError (Unit {0}) × World S
  refused id (ok _, w) = (ok tt, w)
  refused id (err f, w) = (err (duplicates_not_terminated id f), w)

  unfoldable pub drop_duplicates :
      String → List Instance → World S → Result PollError (Unit {0}) × World S
  unfolding duplicate_ids
  drop_duplicates id [] w = (ok tt, w)
  drop_duplicates id (i ∷ is) w = refused id (provider.terminate (duplicate_ids (i ∷ is)) w)

  unfoldable pub reconcile_sorted :
      String → List Instance → World S → Result PollError (Unit {0}) × World S
  unfolding drop_duplicates settle
  reconcile_sorted id [] w = (ok tt, w)
  reconcile_sorted id (oldest ∷ others) w =
      continue (drop_duplicates id others w) (settle config id oldest)

  unfoldable pub reconcile :
      List (String × List Instance) → World S → Result PollError (Unit {0}) × World S
  unfolding reconcile_sorted sort_instances
  reconcile [] w = (ok tt, w)
  reconcile ((id, matches) ∷ groups) w =
      continue (reconcile_sorted id (sort_instances matches) w) (reconcile groups)

  unfoldable pub after_termination : Record → Result Failure (Unit {0}) × World S → World S
  unfolding announce
  after_termination rec (err _, w) = w
  after_termination rec (ok _, w) =
      announce rec.sandbox_id
        (λ r. record r {
          state = "shutting-down";
          last_status = some (sandbox_status r.name r.instance_id "shutting-down" w.clock);
        })
        w

  -- A termination that fails is tried again by the next poll.
  unfoldable pub expire : Record → World S → World S
  unfolding after_termination
  expire rec w =
      if rec.instance_id == "" || rec.state == "shutting-down"
      then w
      else after_termination rec (provider.terminate (rec.instance_id ∷ []) w)

  unfoldable pub expire_all : List Record → World S → World S
  unfolding expire
  expire_all [] w = w
  expire_all (rec ∷ recs) w = expire_all recs (expire rec w)

  -- The rounds over all records, and over those that have expired by then.
  unfoldable pub sweep : List String → World S → World S
  unfolding miss_all expire_all
  sweep seen w =
      let w' = miss_all seen (Registry.all w.registry) w in
      expire_all (Registry.expired w'.registry w'.clock) w'

  abbrev pub sweep_after :
      List String → Result PollError (Unit {0}) × World S → Result PollError (Unit {0}) × World S
  sweep_after seen (ok _, w) = (ok tt, sweep seen w)
  sweep_after seen (err e, w) = (err e, w)

  unfoldable pub poll_listed :
      Result Failure (List Instance) × World S → Result PollError (Unit {0}) × World S
  unfolding reconcile sweep by_sandbox
  poll_listed (err f, w) = (err (list_failed f), w)
  poll_listed (ok instances, w) =
      let groups = by_sandbox instances in sweep_after (map (λ g. g.0) groups) (reconcile groups w)

  unfoldable pub poll : World S → Result PollError (Unit {0}) × World S
  unfolding poll_listed
  poll w =
      poll_listed
        (provider.list (record { gateway_id = config.gateway_id; sandbox_id = ""; name = "" }) w)
