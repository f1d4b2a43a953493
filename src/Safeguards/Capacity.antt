-- ===== src/Safeguards/Capacity.antt =====
-- Capacity leases of pkg/safeguards/safeguards.go: what `ReserveWithLease` and `Rollback` do on each
-- branch, and the bound on the number of records.
use openshell_drivers_contri.Prelude.{
  ℕ, ◌+◌, ◌≤◌, ◌≡◌, refl, ap, ◌∙◌, ◌⊎◌, inl, inr, Bool, true, false, Option, none, some, List, [],
  ◌∷◌, String, arith, length, All, leb, leb→le, eq_refl, Bool-cases, Option-cases,
}
use openshell_drivers_contri.Prelude.Assoc.{
  lookup, insert, lookup-insert, length-insert_new, length-insert_old, length-erase-le,
  erase-insert_new,
}
use openshell_drivers_contri.Prelude.Result.{Result, ok, err}
use openshell_drivers_contri.Proto.Messages.{WatchSandboxesEvent}
use openshell_drivers_contri.Safeguards.Records.{
  Limits, Record, clone_record, effective_max_instances,
}
use openshell_drivers_contri.Safeguards.Registry.{
  Registry, Error, err_capacity, err_exists, add_one_uint64, new_registry, reserve_with_lease,
  delete, rollback, update_if, delete_if, subscribe, remove_watcher, broadcast, count, offer_all,
  offer,
}
use openshell_drivers_contri.Safeguards.Invariant.{
  Call, reserving, adding, deleting, rolling_back, updating, deleting_if, subscribing,
  removing_watcher, broadcasting, step, run, records-broadcast,
}

-- What a reservation may come to.
abbrev pub Outcome : Registry → Record → Registry × Result Error ℕ → Type 0
Outcome r rec (r', result) =
    ((old : Record) × (lookup rec.sandbox_id r.records ≡ some old)
      × (result ≡ err err_exists)
      × (r' ≡ r))
    ⊎ ((lookup rec.sandbox_id r.records ≡ none)
        × (effective_max_instances r.limits ≤ count r)
        × (result ≡ err err_capacity)
        × (r' ≡ r))
    ⊎ ((lookup rec.sandbox_id r.records ≡ none)
        × (result ≡ ok r'.next_lease)
        × (r'.next_lease ≡ add_one_uint64 r.next_lease)
        × (lookup rec.sandbox_id r'.records
            ≡ some (clone_record (record rec { lease = r'.next_lease })))
        × (count r' ≡ count r + 1)
        × (count r' ≤ effective_max_instances r.limits))

module _ (r : Registry) (rec : Record) where
  -- The registry with the new reservation.
  abbrev pub leased : Record
  leased = clone_record (record rec { lease = add_one_uint64 r.next_lease })

  abbrev pub granted : Registry
  granted = record r {
    records = insert rec.sandbox_id leased r.records;
    next_lease = add_one_uint64 r.next_lease;
  }

  reserve_granted :
      lookup rec.sandbox_id r.records ≡ none
      → leb (effective_max_instances r.limits) (length r.records) ≡ false
      → reserve_with_lease r rec ≡ (granted, ok granted.next_lease)
  unfolding reserve_with_lease
  reserve_granted new room = rw (new, reserve_with_lease, room)

  granted-Outcome :
      lookup rec.sandbox_id r.records ≡ none
      → leb (effective_max_instances r.limits) (length r.records) ≡ false
      → Outcome r rec (granted, ok granted.next_lease)
  unfolding count
  granted-Outcome new room = inr (
      inr (
        new,
        refl,
        refl,
        rw (lookup-insert rec.sandbox_id rec.sandbox_id leased r.records, eq_refl rec.sandbox_id),
        length-insert_new rec.sandbox_id leased r.records new,
        ground (arith, length-insert_new rec.sandbox_id leased r.records new),
      ))

  reserve_exists :
      (old : Record)
      → lookup rec.sandbox_id r.records ≡ some old
      → reserve_with_lease r rec ≡ (r, err err_exists)
  unfolding reserve_with_lease
  reserve_exists old e = rw (e, reserve_with_lease)

  reserve_full :
      lookup rec.sandbox_id r.records ≡ none
      → leb (effective_max_instances r.limits) (length r.records) ≡ true
      → reserve_with_lease r rec ≡ (r, err err_capacity)
  unfolding reserve_with_lease
  reserve_full new full = rw (new, reserve_with_lease, full)

  -- The three ways in which a reservation goes.
  pub reserve_cases {ℓ} :
      (P : Registry × Result Error ℕ → Type ℓ)
      → ((old : Record) → lookup rec.sandbox_id r.records ≡ some old → P (r, err err_exists))
      → (lookup rec.sandbox_id r.records ≡ none
          → leb (effective_max_instances r.limits) (length r.records) ≡ true
          → P (r, err err_capacity))
      → (lookup rec.sandbox_id r.records ≡ none
          → leb (effective_max_instances r.limits) (length r.records) ≡ false
          → P (granted, ok granted.next_lease))
      → P (reserve_with_lease r rec)
  reserve_cases P exists full grant = elim (Option-cases (lookup rec.sandbox_id r.records)) [
    | inr (old, e) ↦ rw (reserve_exists old e) (exists old e)
    | inl new ↦ elim (Bool-cases (leb (effective_max_instances r.limits) (length r.records))) [
      | inl b ↦ rw (reserve_full new b) (full new b)
      | inr b ↦ rw (reserve_granted new b) (grant new b)
    ]
  ]

  -- A reservation is refused for an ID that is tracked, or where the capacity is used up, and then
  -- changes nothing; otherwise it adds one record, the redacted copy with the new lease, within
  -- the limit.
  pub reserve_with_lease-Outcome : Outcome r rec (reserve_with_lease r rec)
  unfolding count
  reserve_with_lease-Outcome =
      reserve_cases (Outcome r rec) (λ old e. inl (old, e, refl, refl))
        (λ new full. inr (inl (new, leb→le _ _ full, refl, refl))) granted-Outcome

  pub rollback-granted :
      rec.instance_id ≡ ""
      → lookup rec.sandbox_id r.records ≡ none
      → (rollback granted rec.sandbox_id).records ≡ r.records
  unfolding rollback clone_record
  rollback-granted pending new =
      let stored : lookup rec.sandbox_id granted.records ≡ some leased =
        rw (lookup-insert rec.sandbox_id rec.sandbox_id leased r.records, eq_refl rec.sandbox_id) in
      rw (stored, rollback, pending) (erase-insert_new rec.sandbox_id _ r.records new)

  -- A granted reservation that is rolled back before an instance is recorded leaves the records as
  -- they were.
  pub rollback-reserve_with_lease :
      (r' : Registry) (lease : ℕ)
      → rec.instance_id ≡ ""
      → reserve_with_lease r rec ≡ (r', ok lease)
      → (rollback r' rec.sandbox_id).records ≡ r.records
  rollback-reserve_with_lease r' lease pending =
      reserve_cases (λ x. x ≡ (r', ok lease) → (rollback r' rec.sandbox_id).records ≡ r.records)
        (λ _ _ h. cc) (λ _ _ h. cc)
        λ new _ h. (let same : granted ≡ r' = cc in rw (← same) (rollback-granted pending new))

-- Every call but `Add`, which tracks what is already there.
abbrev pub IsLimited : Call → Type 0
IsLimited (adding _) = ⊥
IsLimited _ = Unit

limits-offer_all :
    (e : WatchSandboxesEvent) (chs : List ℕ) (r : Registry) → (offer_all e chs r).limits ≡ r.limits
unfolding offer_all offer
limits-offer_all e [] r = refl
limits-offer_all e (ch ∷ chs) r = limits-offer_all e chs (offer e ch r) ∙ ground arith

limits-broadcast : (r : Registry) (e : WatchSandboxesEvent) → (broadcast r e).limits ≡ r.limits
unfolding broadcast
limits-broadcast r e = limits-offer_all e r.watchers r

abbrev WithinLimit : Registry → Type 0
WithinLimit r = count r ≤ effective_max_instances r.limits

count-update_if :
    (r : Registry) (id : String) (predicate : Option (Record → Bool)) (f : Record → Record)
    → count (update_if r id predicate f).0 ≡ count r
unfolding count update_if
count-update_if r id predicate f = elim (Option-cases (lookup id r.records)) [
  | inl e ↦ rw (e, update_if)
  | inr (old, e) ↦ ground (arith, length-insert_old id (clone_record (f old)) old r.records e)
]

limits-update_if :
    (r : Registry) (id : String) (predicate : Option (Record → Bool)) (f : Record → Record)
    → (update_if r id predicate f).0.limits ≡ r.limits
unfolding update_if
limits-update_if r id predicate f = ground arith

update_if-WithinLimit :
    (r : Registry) (id : String) (predicate : Option (Record → Bool)) (f : Record → Record)
    → WithinLimit r
    → ((update_if r id predicate f).0.limits ≡ r.limits)
      × WithinLimit (update_if r id predicate f).0
update_if-WithinLimit r id predicate f h = (
  limits-update_if r id predicate f,
  rw (limits-update_if r id predicate f, count-update_if r id predicate f) h,
)

step-WithinLimit :
    (r : Registry) (c : Call)
    → IsLimited c
    → WithinLimit r
    → ((step r c).limits ≡ r.limits) × WithinLimit (step r c)
unfolding step count
step-WithinLimit r (reserving rec) l h =
    reserve_cases r rec (λ x. (x.0.limits ≡ r.limits) × WithinLimit x.0) (λ _ _. (refl, h))
      (λ _ _. (refl, h))
      λ new room.
        (refl, ground (arith, length-insert_new rec.sandbox_id (leased r rec) r.records new))
step-WithinLimit r (adding rec) l h = absurd l
step-WithinLimit r (deleting id) l h =
    (unfold delete in refl, unfold delete in omega (arith, length-erase-le id r.records))
step-WithinLimit r (rolling_back id) l h =
    unfold rollback in ground (arith, length-erase-le id r.records)
step-WithinLimit r (updating id predicate f _) l h = update_if-WithinLimit r id predicate f h
step-WithinLimit r (deleting_if id predicate) l h =
    unfold delete_if in ground (arith, length-erase-le id r.records)
step-WithinLimit r subscribing l h = unfold subscribe in (refl, h)
step-WithinLimit r (removing_watcher ch) l h = unfold remove_watcher in ground arith
step-WithinLimit r (broadcasting e) l h =
    (limits-broadcast r e, rw (limits-broadcast r e, records-broadcast r e) h)

run-WithinLimit :
    (r : Registry) (cs : List Call) → All IsLimited cs → WithinLimit r → WithinLimit (run r cs)
unfolding run
run-WithinLimit r [] l h = h
run-WithinLimit r (c ∷ cs) l h = run-WithinLimit (step r c) cs l.1 (step-WithinLimit r c l.0 h).1

limits-run :
    (r : Registry) (cs : List Call)
    → All IsLimited cs
    → WithinLimit r
    → (run r cs).limits ≡ r.limits
unfolding run
limits-run r [] l h = refl
limits-run r (c ∷ cs) l h =
    let (same, within) = step-WithinLimit r c l.0 h in limits-run (step r c) cs l.1 within ∙ same

-- After any calls on a new registry, `Add` excepted, it tracks at most the effective number of
-- instances.
pub count-le-effective_max_instances :
    (limits : Limits) (cs : List Call)
    → All IsLimited cs
    → count (run (new_registry limits) cs) ≤ effective_max_instances limits
unfolding new_registry count
count-le-effective_max_instances limits cs l =
    let r = new_registry limits in
    let start : WithinLimit r = omega arith in
    omega
      (arith, run-WithinLimit r cs l start, ap effective_max_instances (limits-run r cs l start))
