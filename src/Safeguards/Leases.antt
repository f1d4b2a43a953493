-- ===== src/Safeguards/Leases.antt =====
-- Leases of pkg/safeguards/safeguards.go: each reservation takes the next number of one counter, so
-- a launch that comes back late cannot commit into a later reservation of the same ID.
use openshell_drivers_contri.Prelude.{
  ℕ, ◌+◌, ◌^◌, ◌≤◌, ◌<◌, ◌≡◌, refl, ◌∙◌, subst, Bool, true, false, Option, none, some, List, [],
  ◌∷◌, arith, length,
}
use openshell_drivers_contri.Prelude.Assoc.{lookup}
use openshell_drivers_contri.Prelude.Result.{ok}
use openshell_drivers_contri.Proto.Messages.{WatchSandboxesEvent}
use openshell_drivers_contri.Safeguards.Records.{Record, zero_record, clone_record}
use openshell_drivers_contri.Safeguards.Registry.{
  Registry, add_one_uint64, reserve_with_lease, add, delete, rollback, update_if, delete_if,
  subscribe, remove_watcher, broadcast, offer_all, offer,
}
use openshell_drivers_contri.Safeguards.Invariant.{
  Call, reserving, adding, deleting, rolling_back, updating, deleting_if, subscribing,
  removing_watcher, broadcasting, step, run,
}
use openshell_drivers_contri.Safeguards.Capacity.{Outcome, reserve_with_lease-Outcome}

next_lease-offer_all :
    (e : WatchSandboxesEvent) (chs : List ℕ) (r : Registry)
    → (offer_all e chs r).next_lease ≡ r.next_lease
unfolding offer_all offer
next_lease-offer_all e [] r = refl
next_lease-offer_all e (ch ∷ chs) r = next_lease-offer_all e chs (offer e ch r) ∙ ground arith

-- One call moves the counter on by at most one, while it does not wrap.
abbrev Advances : ℕ → ℕ → Type 0
Advances m n = (m ≤ n) × (n ≤ m + 1)

add_one-Advances : (n : ℕ) → n + 1 < 2 ^ 64 → add_one_uint64 n ≡ n + 1
unfolding add_one_uint64
add_one-Advances n h = omega arith

module _ (r : Registry) (room : r.next_lease + 1 < 2 ^ 64) where
  reserve-Advances : (rec : Record) → Advances r.next_lease (reserve_with_lease r rec).0.next_lease
  unfolding reserve_with_lease
  reserve-Advances rec = ground (arith, add_one-Advances r.next_lease room)

  add-Advances : (rec : Option Record) → Advances r.next_lease (add r rec).0.next_lease
  unfolding add
  add-Advances none = omega arith
  add-Advances (some rec) = ground (arith, add_one-Advances r.next_lease room)

  step-Advances : (c : Call) → Advances r.next_lease (step r c).next_lease
  unfolding step
  step-Advances (reserving rec) = reserve-Advances rec
  step-Advances (adding rec) = add-Advances rec
  step-Advances (deleting id) = unfold delete in omega arith
  step-Advances (rolling_back id) = unfold rollback in ground arith
  step-Advances (updating id predicate f _) = unfold update_if in ground arith
  step-Advances (deleting_if id predicate) = unfold delete_if in ground arith
  step-Advances subscribing = unfold subscribe in omega arith
  step-Advances (removing_watcher ch) = unfold remove_watcher in ground arith
  step-Advances (broadcasting e) =
      unfold broadcast in omega (arith, next_lease-offer_all e r.watchers r)

run-next_lease :
    (r : Registry) (cs : List Call)
    → r.next_lease + length cs < 2 ^ 64
    → (r.next_lease ≤ (run r cs).next_lease) × ((run r cs).next_lease ≤ r.next_lease + length cs)
unfolding run
run-next_lease r [] h = omega arith
run-next_lease r (c ∷ cs) h =
    let (up, near) = step-Advances r (omega arith) c in
    omega (arith, run-next_lease (step r c) cs (omega arith))

granted_lease :
    (r r' : Registry) (rec : Record) (lease : ℕ)
    → reserve_with_lease r rec ≡ (r', ok lease)
    → (lease ≡ add_one_uint64 r.next_lease)
      × (r'.next_lease ≡ lease)
      × (lookup rec.sandbox_id r'.records ≡ some (clone_record (record rec { lease = lease })))
granted_lease r r' rec lease h =
    ground (arith, subst (Outcome r rec) h (reserve_with_lease-Outcome r rec))

-- Of two reservations the later one has the larger lease, whatever was called in between.
pub reserve_with_lease-increases :
    (r r' r'' : Registry) (rec later : Record) (cs : List Call) (lease lease' : ℕ)
    → r.next_lease + length cs + 2 < 2 ^ 64
    → reserve_with_lease r rec ≡ (r', ok lease)
    → reserve_with_lease (run r' cs) later ≡ (r'', ok lease')
    → lease < lease'
reserve_with_lease-increases r r' r'' rec later cs lease lease' room h h' =
    let (taken, counter, _) = granted_lease r r' rec lease h in
    let (taken', _, _) = granted_lease (run r' cs) r'' later lease' h' in
    let one = add_one-Advances r.next_lease (omega arith) in
    let between = run-next_lease r' cs (omega arith) in
    let two = add_one-Advances (run r' cs).next_lease (omega arith) in omega arith

-- A commit that is guarded by an old lease leaves a later reservation of the ID as it is.
pub update_if-stale_lease :
    (r r' r'' : Registry) (rec later : Record) (cs : List Call) (lease lease' : ℕ)
    (guard : Record → Bool) (f : Record → Record)
    → r.next_lease + length cs + 2 < 2 ^ 64
    → reserve_with_lease r rec ≡ (r', ok lease)
    → reserve_with_lease (run r' cs) later ≡ (r'', ok lease')
    → ((current : Record) → guard current ≡ true → current.lease ≡ lease)
    → update_if r'' later.sandbox_id (some guard) f ≡ (r'', zero_record, false)
unfolding update_if clone_record
update_if-stale_lease r r' r'' rec later cs lease lease' guard f room h h' guarded =
    let newer = reserve_with_lease-increases r r' r'' rec later cs lease lease' room h h' in
    let (_, _, stored) = granted_lease (run r' cs) r'' later lease' h' in
    let current = clone_record (clone_record (record later { lease = lease' })) in
    ground (arith, stored, guarded current)
