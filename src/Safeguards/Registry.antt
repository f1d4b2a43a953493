-- ===== src/Safeguards/Registry.antt =====
-- `Registry` of pkg/safeguards/safeguards.go. Each method holds the registry's mutex for its whole
-- body, so it is one atomic function from the state to the new state and the result.
use openshell_drivers_contri.Prelude.{
  ℕ, ◌+◌, ◌-◌, ◌%◌, ◌^◌, min, String, Bool, true, false, not, ◌&&◌, ◌||◌, Option, none, some, List,
  [], ◌∷◌, map, ltb, leb, eqb, ◌==◌, if◌then◌else◌, length, select,
}
use openshell_drivers_contri.Prelude.Assoc.{lookup, insert, erase, values}
use openshell_drivers_contri.Prelude.Result.{Result, ok, err}
use openshell_drivers_contri.Proto.Messages.{WatchSandboxesEvent, sandbox, deleted}
use openshell_drivers_contri.Safeguards.Channels.{Heap, make, try_send, close}
use openshell_drivers_contri.Safeguards.Records.{
  Time, Limits, Record, zero_record, effective_max_instances, effective_max_age, clone_record,
  to_driver_sandbox,
}

-- The two sentinel errors, and `Add` of a nil record.
pub data Error : Type 0 where
  err_capacity err_exists record_is_nil : Error

-- The set of watchers holds channels by their place in the heap.
pub record Registry : Type 0 where
  pub records : List (String × Record)
  pub limits : Limits
  pub watchers : List ℕ
  pub watch_overflow_disconnects : ℕ
  pub next_lease : ℕ
  pub heap : Heap

unfoldable pub new_registry : Limits → Registry
new_registry limits = record {
  records = [];
  limits = limits;
  watchers = [];
  watch_overflow_disconnects = 0;
  next_lease = 0;
  heap = record { channels = []; panicked = false };
}

-- atomic.Uint64.Add(1)
unfoldable pub add_one_uint64 : ℕ → ℕ
add_one_uint64 n = (n + 1) % 2 ^ 64

-- r.records[id] = cloneRecord(rec)
abbrev pub store : String → Record → Registry → Registry
store id rec r = record r { records = insert id (clone_record rec) r.records }

reserve_new : Registry → Record → Registry × Result Error ℕ
reserve_new r rec =
    if leb (effective_max_instances r.limits) (length r.records)
    then (r, err err_capacity)
    else let lease = add_one_uint64 r.next_lease in
      (
        store rec.sandbox_id (record rec { lease = lease }) (record r { next_lease = lease }),
        ok lease,
      )

unfoldable pub reserve_with_lease : Registry → Record → Registry × Result Error ℕ
unfolding reserve_new
reserve_with_lease r rec = elim (lookup rec.sandbox_id r.records) [
  | some _ ↦ (r, err err_exists)
  | none ↦ reserve_new r rec
]

abbrev pub discard : {A : Type 0} → Result Error A → Result Error (Unit {0})
discard (ok _) = ok tt
discard (err e) = err e

unfoldable pub reserve : Registry → Record → Registry × Result Error (Unit {0})
unfolding reserve_with_lease
reserve r rec = let (r', result) = reserve_with_lease r rec in (r', discard result)

-- A lease that the record brings along is kept.
add_new : Registry → Record → Registry × Result Error (Unit {0})
add_new r rec =
    if eqb rec.lease 0
    then (let lease = add_one_uint64 r.next_lease in
        (
          store rec.sandbox_id (record rec { lease = lease }) (record r { next_lease = lease }),
          ok tt,
        ))
    else (store rec.sandbox_id rec r, ok tt)

add_some : Registry → Record → Registry × Result Error (Unit {0})
unfolding add_new
add_some r rec = elim (lookup rec.sandbox_id r.records) [
  | some _ ↦ (r, err err_exists)
  | none ↦ add_new r rec
]

unfoldable pub add : Registry → Option Record → Registry × Result Error (Unit {0})
unfolding add_some
add r none = (r, err record_is_nil)
add r (some rec) = add_some r rec

-- The record of a lookup that fails is the zero record.
unfoldable pub get : Registry → String → Record × Bool
get r id = elim (lookup id r.records) [
  | none ↦ (clone_record zero_record, false)
  | some rec ↦ (clone_record rec, true)
]

abbrev pub forget : String → Registry → Registry
forget id r = record r { records = erase id r.records }

unfoldable pub delete : Registry → String → Registry × Record × Bool
unfolding get
delete r id = let (rec, found) = get r id in (forget id r, rec, found)

unfoldable pub rollback : Registry → String → Registry
rollback r id = elim (lookup id r.records) [
  | none ↦ r
  | some rec ↦ if rec.instance_id == "" then forget id r else r
]

-- A nil predicate accepts every record.
abbrev accepts : Option (Record → Bool) → Record → Bool
accepts none rec = true
accepts (some predicate) rec = predicate (clone_record rec)

unfoldable pub update_if :
    Registry → String → Option (Record → Bool) → (Record → Record) → Registry × Record × Bool
update_if r id predicate fn = elim (lookup id r.records) [
  | none ↦ (r, zero_record, false)
  | some rec ↦
      if accepts predicate rec
      then (store id (fn rec) r, clone_record (clone_record (fn rec)), true)
      else (r, zero_record, false)
]

unfoldable pub update : Registry → String → (Record → Record) → Registry × Record × Bool
unfolding update_if
update r id fn = update_if r id none fn

unfoldable pub delete_if : Registry → String → Option (Record → Bool) → Registry × Record × Bool
delete_if r id predicate = elim (lookup id r.records) [
  | none ↦ (r, zero_record, false)
  | some rec ↦
      if accepts predicate rec
      then (forget id r, clone_record rec, true)
      else (r, zero_record, false)
]

unfoldable pub all : Registry → List Record
all r = map clone_record (values r.records)

unfoldable pub count : Registry → ℕ
count r = length r.records

-- now.Sub(t): a difference of more than the largest time.Duration is that duration. A difference
-- below zero is 0 here, and no age is above a limit then either, since limits are positive.
abbrev pub sub_time : Time → Time → ℕ
sub_time now t = min (now - t) (2 ^ 63 - 1)

unfoldable pub is_expired : ℕ → Time → Record → Bool
is_expired max_age now rec =
    not (eqb rec.created_at 0)
    && ltb max_age (sub_time now rec.created_at)
    && not (rec.state == "terminated")

unfoldable pub expired : Registry → Time → List Record
unfolding is_expired
expired r now =
    map clone_record (select (is_expired (effective_max_age r.limits) now) (values r.records))

unfoldable pub subscribe : Registry → Registry × ℕ × List Record
unfolding all
subscribe r =
    let (heap, ch) = make r.heap in
    (record r { heap = heap; watchers = ch ∷ r.watchers }, ch, all r)

unfoldable pub add_watcher : Registry → Registry × ℕ
unfolding subscribe
add_watcher r = let (r', ch, _) = subscribe r in (r', ch)

unfoldable pub contains : ℕ → List ℕ → Bool
contains ch [] = false
contains ch (x ∷ xs) = eqb x ch || contains ch xs

-- delete(r.watchers, ch)
unfoldable pub remove : ℕ → List ℕ → List ℕ
remove ch [] = []
remove ch (x ∷ xs) = let rest = remove ch xs in if eqb x ch then rest else x ∷ rest

abbrev pub drop_watcher : ℕ → Registry → Registry
drop_watcher ch r = record r { watchers = remove ch r.watchers; heap = close ch r.heap }

unfoldable pub remove_watcher : Registry → ℕ → Registry
unfolding contains remove
remove_watcher r ch = if contains ch r.watchers then drop_watcher ch r else r

-- One round of the loop of `Broadcast`.
unfoldable pub offer : WatchSandboxesEvent → ℕ → Registry → Registry
unfolding remove
offer event ch r =
    let (heap, sent) = try_send ch event r.heap in
    let r' : Registry = record r { heap = heap } in
    if sent
    then r'
    else drop_watcher ch
        (record r' { watch_overflow_disconnects = add_one_uint64 r.watch_overflow_disconnects })

unfoldable pub offer_all : WatchSandboxesEvent → List ℕ → Registry → Registry
unfolding offer
offer_all event [] r = r
offer_all event (ch ∷ chs) r = offer_all event chs (offer event ch r)

unfoldable pub broadcast : Registry → WatchSandboxesEvent → Registry
unfolding offer_all
broadcast r event = offer_all event r.watchers r

unfoldable pub broadcast_sandbox : Registry → Record → Registry
unfolding broadcast
broadcast_sandbox r rec = broadcast r (sandbox (to_driver_sandbox rec))

unfoldable pub broadcast_deleted : Registry → String → Registry
unfolding broadcast
broadcast_deleted r id = broadcast r (deleted id)
