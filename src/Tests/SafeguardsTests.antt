-- ===== src/Tests/SafeguardsTests.antt =====
-- The registry at concrete records and calls.
use openshell_drivers_contri.Prelude.{◌≡◌, ◌≤◌, ◌<◌, refl, false, some, [], ◌∷◌, eqb, arith}
use openshell_drivers_contri.Proto.Messages.{deleted}
use openshell_drivers_contri.Safeguards.Records.{
  Limits, Record, zero_record, clone_record, effective_max_instances,
}
use openshell_drivers_contri.Safeguards.Registry.{
  Registry, new_registry, add_one_uint64, reserve_with_lease, rollback, update_if, subscribe, count,
}
use openshell_drivers_contri.Safeguards.Invariant.{
  reserving, rolling_back, broadcasting, subscribing, step, run, IsValid, step-IsValid,
  new_registry-IsValid, run-new_registry-IsValid,
}
use openshell_drivers_contri.Safeguards.Capacity.{
  Outcome, reserve_with_lease-Outcome, rollback-reserve_with_lease,
  count-le-effective_max_instances,
}
use openshell_drivers_contri.Safeguards.Leases.{reserve_with_lease-increases, update_if-stale_lease}
use openshell_drivers_contri.Safeguards.Delivery.{
  Follows, advance_all, subscribed, calls, receives, subscribe-Follows,
}
use openshell_drivers_contri.Prelude.Int.{pos}
use openshell_drivers_contri.Prelude.Assoc.{lookup, insert, erase}

abbrev one_instance : Limits
one_instance = record { max_instances = pos 1; max_instance_age = pos 0 }

abbrev empty_registry : Registry
empty_registry = new_registry one_instance

abbrev box : Record
box = record zero_record { sandbox_id = "box" }

abbrev kit : Record
kit = record zero_record { sandbox_id = "kit" }

abbrev with_box : Registry
with_box = (reserve_with_lease empty_registry box).0

abbrev with_kit : Registry
with_kit = (reserve_with_lease (rollback with_box "box") kit).0

step-IsValid_example : IsValid (step empty_registry (reserving box))
step-IsValid_example =
    step-IsValid empty_registry (reserving box) (new_registry-IsValid one_instance)

run-new_registry-IsValid_example :
    IsValid (run (new_registry one_instance) (subscribing ∷ reserving box ∷ []))
run-new_registry-IsValid_example =
    run-new_registry-IsValid one_instance (subscribing ∷ reserving box ∷ [])

reserve_with_lease-Outcome_example : Outcome with_box kit (reserve_with_lease with_box kit)
reserve_with_lease-Outcome_example = reserve_with_lease-Outcome with_box kit

rollback-reserve_with_lease_example : (rollback with_box "box").records ≡ []
unfolding reserve_with_lease new_registry count effective_max_instances add_one_uint64 lookup
rollback-reserve_with_lease_example =
    rollback-reserve_with_lease empty_registry box with_box 1 refl refl

count-le-effective_max_instances_example :
    count (run (new_registry one_instance) (reserving box ∷ reserving kit ∷ []))
    ≤ effective_max_instances one_instance
count-le-effective_max_instances_example =
    count-le-effective_max_instances one_instance (reserving box ∷ reserving kit ∷ [])
      (tt, (tt, tt))

reserve_with_lease-increases_example : 1 < 2
unfolding reserve_with_lease new_registry count effective_max_instances add_one_uint64 rollback step
    run lookup insert clone_record erase
reserve_with_lease-increases_example =
    reserve_with_lease-increases empty_registry with_box with_kit box kit (rolling_back "box" ∷ [])
      1 2 (omega arith) refl refl

abbrev again : Registry
again = (reserve_with_lease (rollback with_box "box") box).0

update_if-stale_lease_example :
    update_if again "box" (some (λ current. eqb current.lease 1)) (λ rec. rec)
    ≡ (again, zero_record, false)
unfolding reserve_with_lease new_registry count effective_max_instances add_one_uint64 rollback step
    run lookup insert clone_record erase
update_if-stale_lease_example =
    update_if-stale_lease empty_registry with_box again box box (rolling_back "box" ∷ []) 1 2
      (λ current. eqb current.lease 1) (λ rec. rec) (omega arith) refl refl
      (λ current h. ground arith)

subscribe-Follows_example : Follows (subscribe empty_registry).1 (
    advance_all
      (subscribe empty_registry).1
      (subscribed empty_registry)
      (calls (broadcasting (deleted "box")) ∷ receives 0 ∷ []))
subscribe-Follows_example =
    subscribe-Follows empty_registry (calls (broadcasting (deleted "box")) ∷ receives 0 ∷ [])
      (new_registry-IsValid one_instance)
