-- ===== src/Kubevirt/Resolve.antt =====
-- `resolve`, `markLaunchingDeletion` and the handlers that begin with them, of
-- drivers/kubevirt/driver.go.
use openshell_drivers_contri.Prelude.{
  String, Bool, true, false, not, ◌&&◌, ◌||◌, some, List, [], ◌∷◌, map, select, eqb, ◌==◌,
  if◌then◌else◌,
}
use openshell_drivers_contri.Prelude.Result.{Result, ok, err}
use openshell_drivers_contri.Proto.Messages.{DriverSandbox}
use openshell_drivers_contri.Safeguards.Records.{Time, Record, to_driver_sandbox}
use openshell_drivers_contri.Safeguards.Registry as Registry
use openshell_drivers_contri.Safeguards.Registry.{err_capacity}
use openshell_drivers_contri.Service.{
  Status, World, Exec, pure, fail, now, ◌>>=◌, ◌>>◌, literal, invalid_argument, not_found, aborted,
  failed_precondition,
}
use openshell_drivers_contri.Kubevirt.Provider.{VmInstance, VmProvider}
use openshell_drivers_contri.Kubevirt.Conditions.{
  sandbox_status, is_terminal_state, record_from_instance, instance_to_driver_sandbox, request,
}

-- Actions of one registry that may be followed by a broadcast of the record if there was an update.
unfoldable pub announce_if : {S : Type 0} → World S → Registry.Registry × Record × Bool → World S
announce_if w (r, updated, found) = record w {
  registry = if found then Registry.broadcast_sandbox r updated else r;
}

-- A record in flight, of the ID or of the name.
unfoldable pub is_in_flight : String → String → Record → Bool
is_in_flight id name rec = not (
    not (rec.instance_id == "")
    || not (id == "") && not (rec.sandbox_id == id)
    || not (name == "") && not (rec.name == name))

unfoldable pub may_be_marked : Record → Record → Bool
may_be_marked rec current =
    eqb current.lease rec.lease && (current.instance_id == "" && current.state == "launching")

unfoldable pub marked : Time → Record → Record
marked time current = record current {
  state = "delete-requested";
  last_status = some (sandbox_status current.name "" "deleting" time);
}

-- The loop: the first record whose update succeeds ends it.
unfoldable pub mark_first : {S : Type 0} → List Record → World S → Bool × World S
unfolding may_be_marked marked announce_if
mark_first [] w = (false, w)
mark_first (rec ∷ recs) w =
    let later = mark_first recs w in
    let result =
      Registry.update_if w.registry rec.sandbox_id (some (may_be_marked rec)) (marked w.clock) in
    if result.2 then (true, announce_if w result) else later

unfoldable pub mark_launching_deletion : {S : Type 0} → String → String → World S → Bool × World S
unfolding mark_first is_in_flight
mark_launching_deletion id name w =
    let found = mark_first (select (is_in_flight id name) (Registry.all w.registry)) w in
    if id == ""
    then (if name == "" then (false, w) else found)
    else if name == ""
    then found
    else (false, w)

-- The record of a reservation in flight that the instance of `rec` belongs to.
unfoldable pub taken_over : Record → Record → Record
taken_over rec current = record current {
  instance_id = rec.instance_id;
  state = rec.state;
  created_at = rec.created_at;
  last_status = rec.last_status;
}

unfoldable pub is_launching : Record → Bool
is_launching current = current.instance_id == "" && current.state == "launching"

current_or_aborted : {S : Type 0} → Record × Bool → Exec S Record
current_or_aborted (current, found) w =
    if found && not (current.instance_id == "")
    then (ok current, w)
    else fail aborted (literal "sandbox lifecycle changed while resolving") w

-- A second chance for an instance whose ID is tracked already: it belongs to a reservation in
-- flight, or another call has recorded it.
take_over : {S : Type 0} → Record → Exec S Record
unfolding taken_over is_launching current_or_aborted
take_over rec w =
    let (r, updated, found) =
      Registry.update_if w.registry rec.sandbox_id (some is_launching) (taken_over rec) in
    let w' = record w { registry = r } in
    if found then (ok updated, w') else current_or_aborted (Registry.get r rec.sandbox_id) w'

after_add :
    {S : Type 0} → Record → Registry.Registry × Result Registry.Error (Unit {0}) → Exec S Record
unfolding take_over
after_add rec (r, ok _) w = (ok rec, record w { registry = r })
after_add rec (r, err _) w = take_over rec (record w { registry = r })

unfoldable pub adopt : {S : Type 0} → List VmInstance → Exec S Record
unfolding after_add
adopt [] w = fail not_found (literal "sandbox not found") w
adopt (i ∷ []) w =
    let rec = record_from_instance i w.clock in after_add rec (Registry.add w.registry (some rec)) w
adopt (i ∷ j ∷ rest) w =
    fail failed_precondition (literal "multiple provider instances match sandbox") w

abbrev both_or_neither : {S A : Type 0} → Exec S A
both_or_neither =
    fail invalid_argument (literal "exactly one of sandbox_id or sandbox_name is required")

-- An update of a record that still has the same instance, and its broadcast.
unfoldable pub move_to : {S : Type 0} → String → Record → Exec S (Unit {0})
unfolding announce_if
move_to state rec w = (
  ok tt,
  announce_if w (
      Registry.update_if w.registry rec.sandbox_id
        (some (λ current. current.instance_id == rec.instance_id))
        (λ r. record r {
          state = state;
          last_status = some (sandbox_status r.name r.instance_id state w.clock);
        })),
)

module _ {S : Type 0} (provider : VmProvider S) (gateway_id : String) where
  ask_provider : String → String → Exec S Record
  unfolding adopt
  ask_provider id name = do
    instances ←
        request (provider.list (record { gateway_id = gateway_id; sandbox_id = id; name = name }))
    adopt (select (λ i. not (is_terminal_state i.state)) instances)

  of_matches : String → List Record → Exec S Record
  unfolding ask_provider
  of_matches name [] = ask_provider "" name
  of_matches name (rec ∷ []) = pure rec
  of_matches name (rec ∷ rec' ∷ rest) =
      fail failed_precondition (literal "sandbox name is ambiguous")

  resolve_id : String → Exec S Record
  unfolding ask_provider
  resolve_id id w =
      let (rec, found) = Registry.get w.registry id in
      if found && not (rec.instance_id == "") then (ok rec, w) else ask_provider id "" w

  resolve_name : String → Exec S Record
  unfolding of_matches
  resolve_name name w =
      of_matches name
        (select (λ rec. rec.name == name && not (rec.instance_id == "")) (Registry.all w.registry))
        w

  unfoldable pub resolve : String → String → Exec S Record
  unfolding resolve_id resolve_name
  resolve id name =
      if id == ""
      then (if name == "" then both_or_neither else resolve_name name)
      else if name == ""
      then resolve_id id
      else both_or_neither

  unfoldable pub get_sandbox : String → String → Exec S DriverSandbox
  get_sandbox id name = do rec ← resolve id name; pure (to_driver_sandbox rec)

  unfoldable pub list_sandboxes : Exec S (List DriverSandbox)
  list_sandboxes = do
    instances ←
        request (provider.list (record { gateway_id = gateway_id; sandbox_id = ""; name = "" }))
    time ← now
    pure (
        map (λ i. instance_to_driver_sandbox i time)
          (select (λ i. not (is_terminal_state i.state || i.sandbox_id == "")) instances))

  unfoldable pub stop_sandbox : String → String → Exec S (Unit {0})
  unfolding move_to
  stop_sandbox id name = do
    rec ← resolve id name
    request (provider.stop rec.instance_id)
    move_to "stopping" rec

  delete_resolved : Result Status Record → Exec S Bool
  unfolding move_to
  delete_resolved (ok rec) = do
    request (provider.terminate rec.instance_id)
    move_to "deleting" rec
    pure true
  delete_resolved (err s) = elim s.code [ not_found ↦ pure false | _ ↦ λ w. (err s, w) ]

  delete_unmarked : String → String → Bool × World S → Result Status Bool × World S
  unfolding delete_resolved
  delete_unmarked id name (true, w) = (ok true, w)
  delete_unmarked id name (false, w) =
      let (result, w') = resolve id name w in delete_resolved result w'

  unfoldable pub delete_sandbox : String → String → Exec S Bool
  unfolding delete_unmarked mark_launching_deletion
  delete_sandbox id name w = delete_unmarked id name (mark_launching_deletion id name w)
