-- ===== src/Kubevirt/Observe.antt =====
-- How `poll` of drivers/kubevirt/watcher.go reads what the provider lists: the order of the machines of
-- one sandbox, the one that is kept, and the records that machines become. Whether a creation time can
-- be trusted is decided as in drivers/ec2/watcher.go.
use Prim.Native.String.{compare}
use text.Mathlib.Text.{is_lt}
use openshell_drivers_contri.Prelude.{
  ◌+◌, ◌-◌, String, Bool, not, ◌&&◌, ◌||◌, Option, none, some, List, [], ◌∷◌, eqb, ltb, ◌==◌,
  if◌then◌else◌,
}
use openshell_drivers_contri.Prelude.Int.{pos_part}
use openshell_drivers_contri.Safeguards.Records.{Time, Record, second}
use openshell_drivers_contri.Safeguards.Registry as Registry
use openshell_drivers_contri.Service.Grouping.{sort_by, group_by}
use openshell_drivers_contri.Ec2.Observe.{untrusted}
use openshell_drivers_contri.Kubevirt.Config.{Config}
use openshell_drivers_contri.Kubevirt.Provider.{VmInstance, Failure}
use openshell_drivers_contri.Kubevirt.Conditions.{sandbox_status, record_from_instance}

-- Why a poll ends early; a duplicate is named with its sandbox.
pub data PollError : Type 0 where
  list_failed : Failure → PollError
  duplicate_not_terminated : String → String → Failure → PollError
  not_tracked : String → Registry.Error → PollError

-- The comparison that is handed to sort.Slice: by creation time, then by name. Texts compare by their
-- bytes in UTF-8, which is the order of their code points.
unfoldable pub earlier : VmInstance → VmInstance → Bool
earlier a b =
    if eqb a.created_at b.created_at
    then is_lt (compare a.vm_name b.vm_name)
    else ltb a.created_at b.created_at

-- sort.Slice(matches, …); machines that are equal in the order have the same name
unfoldable pub sort_instances : List VmInstance → List VmInstance
unfolding earlier
sort_instances = sort_by earlier

-- bySandbox
unfoldable pub by_sandbox : List VmInstance → List (String × List VmInstance)
by_sandbox = group_by (λ i. i.sandbox_id) []

unfoldable pub is_completed : VmInstance → Bool
is_completed i = i.state == "Succeeded" || i.state == "Failed"

abbrev pub behind : VmInstance → VmInstance × List VmInstance → VmInstance × List VmInstance
behind i (keeper, others) = (keeper, i ∷ others)

-- The first machine that is not completed, and the others in their order.
unfoldable pub first_running : List VmInstance → Option (VmInstance × List VmInstance)
first_running [] = none
first_running (i ∷ is) =
    let later = first_running is in
    if is_completed i
    then (elim later [ none ↦ none | some found ↦ some (behind i found) ])
    else some (i, is)

abbrev pub or_first :
    VmInstance
    → List VmInstance
    → Option (VmInstance × List VmInstance)
    → VmInstance × List VmInstance
or_first i is none = (i, is)
or_first i is (some found) = found

-- live[keeper], and the duplicates: the keeper is the first machine if all are completed.
unfoldable pub choose_keeper : VmInstance → List VmInstance → VmInstance × List VmInstance
unfolding first_running
choose_keeper i is = or_first i is (first_running (i ∷ is))

-- `recovered`, which is made old enough to expire if its age cannot be trusted. Go's subtraction
-- could go below the zero time; a clock of this era cannot.
unfoldable pub recovered_record : Config → Time → VmInstance → Record
recovered_record config now i =
    let rec : Record = record_from_instance i now in
    if untrusted now i.created_at
    then record rec { created_at = now - (pos_part config.max_instance_age + second) }
    else rec

-- observedState: a machine that is being stopped or deleted is still listed as running.
unfoldable pub observed_state : Record → VmInstance → String
observed_state rec i =
    if (rec.state == "deleting" || rec.state == "stopping") && i.state == "Running"
    then rec.state
    else i.state

unfoldable pub differs : Record → VmInstance → Bool
unfolding observed_state
differs rec i =
    not (rec.state == observed_state rec i)
    || (not (rec.instance_id == i.vm_name) || not (eqb rec.missing_polls 0))

-- The predicate and the function of the update of a tracked record that differs from its machine.
unfoldable pub may_follow : Record → Record → Bool
may_follow rec current =
    eqb current.lease rec.lease
    && (current.instance_id == "" || current.instance_id == rec.instance_id)

unfoldable pub observed_record : Time → VmInstance → String → Record → Record
observed_record transition i observed r =
    let same_state = r.state == observed in
    record r {
      instance_id = i.vm_name;
      missing_polls = 0;
      created_at = if eqb r.created_at 0 then i.created_at else r.created_at;
      state = if same_state then r.state else observed;
      last_status =
          if same_state
          then r.last_status
          else some (sandbox_status r.name i.vm_name observed transition);
    }
