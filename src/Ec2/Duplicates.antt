-- ===== src/Ec2/Duplicates.antt =====
-- What `poll` of drivers/ec2/watcher.go does where several instances of one sandbox ID are listed.
use openshell_drivers_contri.Prelude.{
  ◌≡◌, refl, sym, String, ◌<◌, false, none, List, [], ◌∷◌, ◌==◌, if◌then◌else◌, ◌⊎◌, Bool-cases,
  inl, inr, arith, eq_iff, true, ap, ◌∙◌, subst,
}
use openshell_drivers_contri.Prelude.Assoc.{lookup, insert, lookup-erase}
use openshell_drivers_contri.Prelude.Result.{Result, ok, err}
use openshell_drivers_contri.Safeguards.Registry.{delete}
use openshell_drivers_contri.Service.{World}
use openshell_drivers_contri.Ec2.Config.{Config}
use openshell_drivers_contri.Ec2.Provider.{Instance, Provider}
use openshell_drivers_contri.Safeguards.Lookups.{records-broadcast_deleted, records-delete}
use openshell_drivers_contri.Service.Grouping.{sort_by, add_to, group_by}
use openshell_drivers_contri.Ec2.Observe.{PollError, earlier, sort_instances, by_sandbox}
use openshell_drivers_contri.Ec2.Poll.{
  continue, complete, settle, duplicate_ids, drop_duplicates, reconcile_sorted, reconcile,
}

lookup-complete :
    {S : Type 0} (id other : String) (w : World S)
    → lookup other (complete id w).registry.records
      ≡ (if id == other then none else lookup other w.registry.records)
unfolding complete
lookup-complete id other w = elim (Bool-cases (delete w.registry id).2) [
  | inl e ↦ rw (e, records-broadcast_deleted, records-delete, lookup-erase) refl
  | inr e ↦ rw (e, records-delete, lookup-erase) refl
]

-- Two instances of one sandbox are one group, in the order in which they are listed.
by_sandbox_two :
    (id : String) (a b : Instance)
    → (id == "") ≡ false
    → a.sandbox_id ≡ id
    → b.sandbox_id ≡ id
    → by_sandbox (a ∷ b ∷ []) ≡ (id, a ∷ b ∷ []) ∷ []
unfolding by_sandbox group_by lookup insert
by_sandbox_two id a b given of_a of_b =
    let a_given : (a.sandbox_id == "") ≡ false = ap (λ k. k == "") of_a ∙ given in
    let b_given : (b.sandbox_id == "") ≡ false = ap (λ k. k == "") of_b ∙ given in
    let one_key : (a.sandbox_id == b.sandbox_id) ≡ true =
      (eq_iff a.sandbox_id b.sandbox_id).1 (of_a ∙ sym of_b) in
    rw (a_given, b_given) (add_second one_key ∙ ap (λ k. (k, a ∷ b ∷ []) ∷ []) of_b)
  where
    add_second :
        (a.sandbox_id == b.sandbox_id) ≡ true
        → add_to (λ i. i.sandbox_id) b ((a.sandbox_id, a ∷ []) ∷ [])
          ≡ (b.sandbox_id, a ∷ b ∷ []) ∷ []
    add_second one_key = grind (arith, one_key)

sort_instances_ordered :
    (a b : Instance) → a.created_at < b.created_at → sort_instances (a ∷ b ∷ []) ≡ a ∷ b ∷ []
unfolding sort_instances sort_by earlier
sort_instances_ordered a b h = ground arith

sort_instances_swapped :
    (a b : Instance) → a.created_at < b.created_at → sort_instances (b ∷ a ∷ []) ≡ a ∷ b ∷ []
unfolding sort_instances sort_by earlier
sort_instances_swapped a b h = ground arith

module _ {S : Type 0} (provider : Provider S) (config : Config) where
  reconcile_sorted-terminated :
      (id other : String) (oldest newer : Instance) (w : World S)
      → oldest.state ≡ "terminated"
      → (newer.state == "terminated") ≡ false
      → (provider.terminate (newer.id ∷ []) w).0 ≡ ok tt
      → ((reconcile_sorted provider config id (oldest ∷ newer ∷ []) w).0 ≡ ok tt)
        × (lookup other
              (reconcile_sorted provider config id (oldest ∷ newer ∷ []) w).1.registry.records
            ≡ (if id == other
                then none
                else lookup other (provider.terminate (newer.id ∷ []) w).1.registry.records))
  unfolding reconcile_sorted drop_duplicates duplicate_ids settle
  reconcile_sorted-terminated id other oldest newer w ended alive agreed = (
    rw (alive, agreed, ended) refl,
    rw (alive, agreed, ended) (lookup-complete id other (provider.terminate (newer.id ∷ []) w).1),
  )

  abbrev Dropped : String → String → World S → Result PollError (Unit {0}) × World S → Type 0
  Dropped id other left (result, w') =
      (result ≡ ok tt)
      × (lookup other w'.registry.records
          ≡ (if id == other then none else lookup other left.registry.records))

  reconcile_one :
      (id other : String) (w left : World S) (is : List Instance)
      → Dropped id other left (reconcile_sorted provider config id (sort_instances is) w)
      → Dropped id other left (reconcile provider config ((id, is) ∷ []) w)
  unfolding reconcile
  reconcile_one id other w left is h =
      of_result (reconcile_sorted provider config id (sort_instances is) w) h
    where
      of_result :
          (x : Result PollError (Unit {0}) × World S)
          → Dropped id other left x
          → Dropped id other left (continue provider config x (reconcile provider config []))
      of_result (ok _, w') h = h
      of_result (err e, w') h = absurd (let clash = h.0 in cc)

  -- Where two instances of one sandbox ID are listed, in whichever order, of which the one that was
  -- created earlier is terminated and the other is not, reconciling asks the provider to terminate the
  -- other; if it agrees, the record of the ID is dropped from those that it leaves, and no other.
  pub reconcile-terminated :
      (id other : String) (oldest newer : Instance) (listed : List Instance) (w : World S)
      → (id == "") ≡ false
      → oldest.sandbox_id ≡ id
      → newer.sandbox_id ≡ id
      → oldest.created_at < newer.created_at
      → oldest.state ≡ "terminated"
      → (newer.state == "terminated") ≡ false
      → (listed ≡ oldest ∷ newer ∷ []) ⊎ (listed ≡ newer ∷ oldest ∷ [])
      → (provider.terminate (newer.id ∷ []) w).0 ≡ ok tt
      → ((reconcile provider config (by_sandbox listed) w).0 ≡ ok tt)
        × (lookup other (reconcile provider config (by_sandbox listed) w).1.registry.records ≡ (
            if id == other
            then none
            else lookup other (provider.terminate (newer.id ∷ []) w).1.registry.records))
  reconcile-terminated id other oldest newer listed w given of_oldest of_newer before ended alive
        orders agreed =
      let left = (provider.terminate (newer.id ∷ []) w).1 in
      let dropped = reconcile_sorted-terminated id other oldest newer w ended alive agreed in
      let Settled : List (String × List Instance) → Type 0 =
        λ groups. Dropped id other left (reconcile provider config groups w) in
      let Sorted : List Instance → Type 0 =
        λ is. Dropped id other left (reconcile_sorted provider config id is w) in
      elim orders [
        | inl e ↦
            subst Settled
              (sym (ap by_sandbox e ∙ by_sandbox_two id oldest newer given of_oldest of_newer))
              (reconcile_one id other w left (oldest ∷ newer ∷ [])
                (subst Sorted (sym (sort_instances_ordered oldest newer before)) dropped))
        | inr e ↦
            subst Settled
              (sym (ap by_sandbox e ∙ by_sandbox_two id newer oldest given of_newer of_oldest))
              (reconcile_one id other w left (newer ∷ oldest ∷ [])
                (subst Sorted (sym (sort_instances_swapped oldest newer before)) dropped))
      ]
