-- ===== src/Ec2/Observe.antt =====
-- How `poll` of drivers/ec2/watcher.go reads what the provider lists: the groups by sandbox, their
-- order, and the records that the instances become.
use Prim.Native.String.{compare}
use text.Mathlib.Text.{is_lt}
use openshell_drivers_contri.Prelude.{
  ℕ, ◌+◌, ◌-◌, ◌*◌, String, Bool, not, ◌||◌, some, List, [], eqb, ltb, ◌==◌, if◌then◌else◌,
}
use openshell_drivers_contri.Prelude.Int.{pos_part}
use openshell_drivers_contri.Safeguards.Records.{Time, Record, second, minute}
use openshell_drivers_contri.Safeguards.Registry as Registry
use openshell_drivers_contri.Service.Grouping.{sort_by, group_by}
use openshell_drivers_contri.Ec2.Config.{Config}
use openshell_drivers_contri.Ec2.Provider.{Instance, Failure}
use openshell_drivers_contri.Ec2.Conditions.{sandbox_status, record_from_instance}

abbrev pub missing_poll_threshold : ℕ
missing_poll_threshold = 3

-- Why a poll ends early.
pub data PollError : Type 0 where
  list_failed : Failure → PollError
  duplicates_not_terminated : String → Failure → PollError
  not_tracked : String → Registry.Error → PollError

-- The comparison that is handed to sort.Slice: by creation time, then by instance ID. Texts compare
-- by their bytes in UTF-8, which is the order of their code points.
unfoldable pub earlier : Instance → Instance → Bool
earlier a b =
    if eqb a.created_at b.created_at
    then is_lt (compare a.id b.id)
    else ltb a.created_at b.created_at

-- sort.Slice(matches, …); instances that are equal in the order have the same ID
unfoldable pub sort_instances : List Instance → List Instance
unfolding earlier
sort_instances = sort_by earlier

-- bySandbox
unfoldable pub by_sandbox : List Instance → List (String × List Instance)
by_sandbox = group_by (λ i. i.sandbox_id) []

-- No trustworthy creation time: none, or one that lies more than five minutes ahead.
unfoldable pub untrusted : Time → Time → Bool
untrusted now created_at = eqb created_at 0 || ltb (now + 5 * minute) created_at

-- `recovered`, which is made old enough to expire if its age cannot be trusted. Go's subtraction
-- could go below the zero time; a clock of this era cannot.
unfoldable pub recovered_record : Config → Time → Instance → Record
unfolding untrusted
recovered_record config now i =
    let rec : Record = record_from_instance i now in
    if untrusted now i.created_at
    then record rec { created_at = now - (pos_part config.max_instance_age + second) }
    else rec

-- The function of the update of a tracked record that differs from its instance.
unfoldable pub observed_record : Time → Instance → Record → Record
observed_record transition i r =
    let same_state = r.state == i.state in
    record r {
      instance_id = i.id;
      missing_polls = 0;
      created_at = if eqb r.created_at 0 then i.created_at else r.created_at;
      state = if same_state then r.state else i.state;
      last_status =
          if same_state
          then r.last_status
          else some (sandbox_status r.name i.id i.state transition);
    }

unfoldable pub differs : Record → Instance → Bool
differs rec i =
    not (rec.state == i.state) || (not (rec.instance_id == i.id) || not (eqb rec.missing_polls 0))
