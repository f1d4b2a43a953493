-- ===== src/Kubevirt/Poll.antt =====
-- `Initialize` and `poll` of drivers/kubevirt/watcher.go: one round of reconciliation.
use openshell_drivers_contri.Prelude.{
  String, not, ◌&&◌, some, List, [], ◌∷◌, select, ◌==◌, if◌then◌else◌,
}
use openshell_drivers_contri.Prelude.Result.{Result, ok, err}
use openshell_drivers_contri.Safeguards.Records.{Record}
use openshell_drivers_contri.Safeguards.Registry as Registry
use openshell_drivers_contri.Service.{World}
use openshell_drivers_contri.Kubevirt.Config.{Config}
use openshell_drivers_contri.Kubevirt.Provider.{VmInstance, Failure, VmProvider}
use openshell_drivers_contri.Kubevirt.Conditions.{is_terminal_state}
use openshell_drivers_contri.Kubevirt.Observe.{
  PollError, list_failed, duplicate_not_terminated, not_tracked, sort_instances, by_sandbox,
  choose_keeper, recovered_record, observed_state, differs, may_follow, observed_record,
}
use openshell_drivers_contri.Kubevirt.Sweep.{sweep}

abbrev pub Outcome : Type 0 → Type 0
Outcome S = Result PollError (Unit {0}) × World S

module _ {S : Type 0} where
  abbrev with_registry : World S → Registry.Registry → World S
  with_registry w r = record w { registry = r }

  -- The machine that is kept is listed as deleted; none of those that the poll keeps is.
  unfoldable pub complete : String → VmInstance → World S → World S
  complete id i w =
      let (r, _, found) =
        Registry.delete_if w.registry id (some (λ current. current.instance_id == i.vm_name)) in
      if found then with_registry w (Registry.broadcast_deleted r id) else with_registry w r

  tracked :
      String → Record → Registry.Registry × Result Registry.Error (Unit {0}) → World S → Outcome S
  tracked id rec (r, ok _) w = (ok tt, with_registry w (Registry.broadcast_sandbox r rec))
  tracked id rec (r, err e) w = (err (not_tracked id e), with_registry w r)

  unfoldable pub recover : Config → String → VmInstance → World S → Outcome S
  unfolding tracked
  recover config id i w =
      let rec = recovered_record config w.clock i in
      tracked id rec (Registry.add w.registry (some rec)) w

  -- A record that is tracked already follows its machine; watchers hear of a change of state.
  unfoldable pub follow : String → VmInstance → Record → World S → World S
  follow id i rec w =
      let observed = observed_state rec i in
      let (r, updated, found) =
        Registry.update_if w.registry id (some (may_follow rec))
          (observed_record w.clock i observed) in
      if differs rec i
      then with_registry w
          (if found && not (rec.state == observed) then Registry.broadcast_sandbox r updated else r)
      else w

  -- The rest of a round for one sandbox ID, after the duplicates are dealt with.
  unfoldable pub settle : Config → String → VmInstance → World S → Outcome S
  unfolding complete recover follow
  settle config id i w =
      let (rec, found) = Registry.get w.registry id in
      if is_terminal_state i.state
      then (ok tt, complete id i w)
      else if found
      then (ok tt, follow id i rec w)
      else recover config id i w

module _ {S : Type 0} (provider : VmProvider S) (config : Config) where
  abbrev pub continue : Outcome S → (World S → Outcome S) → Outcome S
  continue (ok _, w) next = next w
  continue (err e, w) next = (err e, w)

  abbrev pub refused : String → String → Result Failure (Unit {0}) × World S → Outcome S
  refused id name (ok _, w) = (ok tt, w)
  refused id name (err f, w) = (err (duplicate_not_terminated name id f), w)

  -- The duplicates are terminated one by one, up to the first failure.
  unfoldable pub drop_duplicates : String → List VmInstance → World S → Outcome S
  drop_duplicates id [] w = (ok tt, w)
  drop_duplicates id (i ∷ is) w =
      continue (refused id i.vm_name (provider.terminate i.vm_name w)) (drop_duplicates id is)

  unfoldable pub reconcile_live : String → List VmInstance → World S → Outcome S
  unfolding drop_duplicates settle
  reconcile_live id [] w = (ok tt, w)
  reconcile_live id (i ∷ is) w =
      let (keeper, duplicates) = choose_keeper i is in
      continue (drop_duplicates id duplicates w) (settle config id keeper)

  unfoldable pub live : List VmInstance → List VmInstance
  live matches = select (λ i. not (is_terminal_state i.state)) (sort_instances matches)

  unfoldable pub reconcile : List (String × List VmInstance) → World S → Outcome S
  unfolding reconcile_live live
  reconcile [] w = (ok tt, w)
  reconcile ((id, matches) ∷ groups) w =
      continue (reconcile_live id (live matches) w) (reconcile groups)

  -- The IDs of the groups with a machine that is live.
  unfoldable pub seen_ids : List (String × List VmInstance) → List String
  unfolding live
  seen_ids [] = []
  seen_ids ((id, matches) ∷ groups) = elim (live matches) [
    | [] ↦ seen_ids groups
    | _ ∷ _ ↦ id ∷ seen_ids groups
  ]

  abbrev pub sweep_after : List String → Outcome S → Outcome S
  sweep_after seen (ok _, w) = (ok tt, sweep provider seen w)
  sweep_after seen (err e, w) = (err e, w)

  unfoldable pub poll_listed : Result Failure (List VmInstance) × World S → Outcome S
  unfolding reconcile sweep by_sandbox seen_ids
  poll_listed (err f, w) = (err (list_failed f), w)
  poll_listed (ok instances, w) =
      let groups = by_sandbox instances in sweep_after (seen_ids groups) (reconcile groups w)

  unfoldable pub poll : World S → Outcome S
  unfolding poll_listed
  poll w =
      poll_listed
        (provider.list (record { gateway_id = config.gateway_id; sandbox_id = ""; name = "" }) w)

-- Why `Initialize` fails.
pub data InitError : Type 0 where
  not_ready : Failure → InitError
  bad_poll : PollError → InitError

module _ {S : Type 0} (provider : VmProvider S) (config : Config) where
  abbrev polled : Outcome S → Result InitError (Unit {0}) × World S
  polled (ok _, w) = (ok tt, w)
  polled (err e, w) = (err (bad_poll e), w)

  abbrev when_ready : Result Failure (Unit {0}) × World S → Result InitError (Unit {0}) × World S
  when_ready (err f, w) = (err (not_ready f), w)
  when_ready (ok _, w) = polled (poll provider config w)

  unfoldable pub initialize : World S → Result InitError (Unit {0}) × World S
  unfolding poll
  initialize w = when_ready (provider.check_ready w)
