-- ===== src/Safeguards/Invariant.antt =====
-- The registry's invariant, and that every method of pkg/safeguards/safeguards.go keeps it.
use openshell_drivers_contri.Prelude.{
  ℕ, ◌≡◌, refl, ◌∙◌, Bool, Option, none, some, List, [], ◌∷◌, String, arith, All, Option-cases, inl,
  inr,
}
use openshell_drivers_contri.Prelude.Assoc.{
  lookup, insert, erase, Distinct, insert-Distinct, erase-Distinct, insert-All, erase-All,
  lookup-All,
}
use openshell_drivers_contri.Proto.Messages.{WatchSandboxesEvent}
use openshell_drivers_contri.Safeguards.Records.{
  Limits, Record, clone_record, SpecIsRedacted, clone_redacted_spec-SpecIsRedacted,
}
use openshell_drivers_contri.Safeguards.Registry.{
  Registry, add_one_uint64, new_registry, reserve_with_lease, add, delete, rollback, update_if,
  delete_if, subscribe, remove_watcher, broadcast, offer_all, offer,
}
use openshell_drivers_contri.Safeguards.Watchers.{
  WatchersAreValid, broadcast-WatchersAreValid, remove_watcher-WatchersAreValid,
  subscribe-WatchersAreValid,
}

-- A record stands under its own ID, and holds no sandbox token.
pub record EntryIsValid (e : String × Record) : Type 0 where
  pub keyed : e.1.sandbox_id ≡ e.0
  pub redacted : SpecIsRedacted e.1.spec

pub record IsValid (r : Registry) : Type 0 where
  pub distinct : Distinct r.records
  pub entries : All EntryIsValid r.records
  pub watching : WatchersAreValid r

-- The calls of the registry's methods that change it. An update's function keeps the sandbox ID.
pub data Call : Type 0 where
  reserving : Record → Call
  adding : Option Record → Call
  deleting rolling_back : String → Call
  updating :
      String
      → Option (Record → Bool)
      → (f : Record → Record) → ((rec : Record) → (f rec).sandbox_id ≡ rec.sandbox_id)
      → Call
  deleting_if : String → Option (Record → Bool) → Call
  subscribing : Call
  removing_watcher : ℕ → Call
  broadcasting : WatchSandboxesEvent → Call

unfoldable pub step : Registry → Call → Registry
step r (reserving rec) = (reserve_with_lease r rec).0
step r (adding rec) = (add r rec).0
step r (deleting id) = (delete r id).0
step r (rolling_back id) = rollback r id
step r (updating id predicate f _) = (update_if r id predicate f).0
step r (deleting_if id predicate) = (delete_if r id predicate).0
step r subscribing = (subscribe r).0
step r (removing_watcher ch) = remove_watcher r ch
step r (broadcasting e) = broadcast r e

unfoldable pub run : Registry → List Call → Registry
run r [] = r
run r (c ∷ cs) = run (step r c) cs

clone_record-EntryIsValid :
    (id : String) (rec : Record) → rec.sandbox_id ≡ id → EntryIsValid (id, clone_record rec)
unfolding clone_record
clone_record-EntryIsValid id rec e = record {
  keyed = e;
  redacted = clone_redacted_spec-SpecIsRedacted rec.spec;
}

-- The methods on records write the map, and the lease counter, and nothing else of the registry.
abbrev with_records : Registry → List (String × Record) → ℕ → Registry
with_records r m lease = record r { records = m; next_lease = lease }

module _ (r : Registry) (valid : IsValid r) where
  with_records-IsValid :
      (m : List (String × Record)) (lease : ℕ)
      → Distinct m
      → All EntryIsValid m
      → IsValid (with_records r m lease)
  with_records-IsValid m lease d a = record {
    distinct = d;
    entries = a;
    watching = record {
      opened = valid.watching.opened;
      distinct = valid.watching.distinct;
      calm = valid.watching.calm;
    };
  }

  stored-IsValid :
      (id : String) (rec : Record) (lease : ℕ)
      → rec.sandbox_id ≡ id
      → IsValid (with_records r (insert id (clone_record rec) r.records) lease)
  stored-IsValid id rec lease e =
      with_records-IsValid (insert id (clone_record rec) r.records) lease
        (insert-Distinct id (clone_record rec) r.records valid.distinct)
        (insert-All EntryIsValid id (clone_record rec) r.records
          (clone_record-EntryIsValid id rec e) valid.entries)

  forgotten-IsValid : (id : String) → IsValid (with_records r (erase id r.records) r.next_lease)
  forgotten-IsValid id =
      with_records-IsValid (erase id r.records) r.next_lease
        (erase-Distinct id r.records valid.distinct)
        (erase-All EntryIsValid id r.records valid.entries)

  reserve_with_lease-IsValid : (rec : Record) → IsValid (reserve_with_lease r rec).0
  unfolding reserve_with_lease
  reserve_with_lease-IsValid rec =
      let lease = add_one_uint64 r.next_lease in
      ground (arith, stored-IsValid rec.sandbox_id (record rec { lease = lease }) lease refl)

  add-IsValid : (rec : Option Record) → IsValid (add r rec).0
  unfolding add
  add-IsValid none = valid
  add-IsValid (some rec) =
      let lease = add_one_uint64 r.next_lease in
      ground (
        arith,
        stored-IsValid rec.sandbox_id (record rec { lease = lease }) lease refl,
        stored-IsValid rec.sandbox_id rec r.next_lease refl,
      )

  rollback-IsValid : (id : String) → IsValid (rollback r id)
  unfolding rollback
  rollback-IsValid id = ground (arith, forgotten-IsValid id)

  update_if-IsValid :
      (id : String) (predicate : Option (Record → Bool)) (f : Record → Record)
      → ((rec : Record) → (f rec).sandbox_id ≡ rec.sandbox_id)
      → IsValid (update_if r id predicate f).0
  unfolding update_if
  update_if-IsValid id predicate f keeps = elim (Option-cases (lookup id r.records)) [
    | inl e ↦ rw (e, update_if) valid
    | inr (rec, e) ↦
        (let keyed : rec.sandbox_id ≡ id =
            (lookup-All EntryIsValid id r.records {value = rec} e valid.entries).keyed in
          let stored = stored-IsValid id (f rec) r.next_lease (keeps rec ∙ keyed) in
          ground (arith, stored))
  ]

  delete_if-IsValid :
      (id : String) (predicate : Option (Record → Bool)) → IsValid (delete_if r id predicate).0
  unfolding delete_if
  delete_if-IsValid id predicate = ground (arith, forgotten-IsValid id)

  delete-IsValid : (id : String) → IsValid (delete r id).0
  unfolding delete
  delete-IsValid id = forgotten-IsValid id

-- The methods on watchers leave the records as they are.
records-offer_all :
    (e : WatchSandboxesEvent) (chs : List ℕ) (r : Registry)
    → (offer_all e chs r).records ≡ r.records
unfolding offer_all offer
records-offer_all e [] r = refl
records-offer_all e (ch ∷ chs) r = records-offer_all e chs (offer e ch r) ∙ ground arith

pub records-broadcast :
    (r : Registry) (e : WatchSandboxesEvent) → (broadcast r e).records ≡ r.records
unfolding broadcast
records-broadcast r e = records-offer_all e r.watchers r

records-remove_watcher : (r : Registry) (ch : ℕ) → (remove_watcher r ch).records ≡ r.records
unfolding remove_watcher
records-remove_watcher r ch = ground arith

records-subscribe : (r : Registry) → (subscribe r).0.records ≡ r.records
unfolding subscribe
records-subscribe r = refl

module _ (r q : Registry) (valid : IsValid r) (same : q.records ≡ r.records) where
  watching-IsValid : WatchersAreValid q → IsValid q
  watching-IsValid w = record {
    distinct = rw same valid.distinct;
    entries = rw same valid.entries;
    watching = w;
  }

-- Every call of a method, an update by a function that keeps the ID included, keeps the invariant:
-- keys are distinct and each is its record's ID, no stored spec holds a token, the watchers'
-- channels are open, distinct and within their buffers, and no send or close has panicked.
pub step-IsValid : (r : Registry) (c : Call) → IsValid r → IsValid (step r c)
unfolding step
step-IsValid r (reserving rec) valid = reserve_with_lease-IsValid r valid rec
step-IsValid r (adding rec) valid = add-IsValid r valid rec
step-IsValid r (deleting id) valid = delete-IsValid r valid id
step-IsValid r (rolling_back id) valid = rollback-IsValid r valid id
step-IsValid r (updating id predicate f keeps) valid =
    update_if-IsValid r valid id predicate f keeps
step-IsValid r (deleting_if id predicate) valid = delete_if-IsValid r valid id predicate
step-IsValid r subscribing valid =
    watching-IsValid r (subscribe r).0 valid (records-subscribe r)
      (subscribe-WatchersAreValid r valid.watching)
step-IsValid r (removing_watcher ch) valid =
    watching-IsValid r (remove_watcher r ch) valid (records-remove_watcher r ch)
      (remove_watcher-WatchersAreValid r ch valid.watching)
step-IsValid r (broadcasting e) valid =
    watching-IsValid r (broadcast r e) valid (records-broadcast r e)
      (broadcast-WatchersAreValid r e valid.watching)

run-IsValid : (r : Registry) (cs : List Call) → IsValid r → IsValid (run r cs)
unfolding run
run-IsValid r [] valid = valid
run-IsValid r (c ∷ cs) valid = run-IsValid (step r c) cs (step-IsValid r c valid)

pub new_registry-IsValid : (limits : Limits) → IsValid (new_registry limits)
unfolding new_registry
new_registry-IsValid limits = record {
  distinct = tt;
  entries = tt;
  watching = record { opened = tt; distinct = tt; calm = refl };
}

-- So it holds after any calls on a new registry.
pub run-new_registry-IsValid :
    (limits : Limits) (cs : List Call) → IsValid (run (new_registry limits) cs)
run-new_registry-IsValid limits cs =
    run-IsValid (new_registry limits) cs (new_registry-IsValid limits)
