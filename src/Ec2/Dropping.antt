-- ===== src/Ec2/Dropping.antt =====
-- Polls of drivers/ec2/watcher.go that list no instance of a sandbox, one after another.
use openshell_drivers_contri.Prelude.{
  ℕ, zero, suc, ◌+◌, ◌≤◌, ◌≡◌, refl, sym, ◌∙◌, subst, All, map, String, false, ◌||◌, some, none,
  List, [], ◌∷◌, arith, ◌==◌, Bool-cases, inl, inr,
}
use openshell_drivers_contri.Prelude.Assoc.{lookup}
use openshell_drivers_contri.Prelude.Result.{Result, ok, err}
use openshell_drivers_contri.Safeguards.Records.{Record}
use openshell_drivers_contri.Safeguards.Registry.{Registry, update}
use openshell_drivers_contri.Safeguards.Registry as Registry
use openshell_drivers_contri.Safeguards.Lookups.{records-broadcast_sandbox}
use openshell_drivers_contri.Safeguards.Fading.{Fading, update-Fading, all-HasMachine}
use openshell_drivers_contri.Service.{World}
use openshell_drivers_contri.Service.Grouping.{has_text}
use openshell_drivers_contri.Ec2.Config.{Config}
use openshell_drivers_contri.Ec2.Provider.{Instance, InstanceFilter, Failure, Provider}
use openshell_drivers_contri.Ec2.Conditions.{sandbox_status}
use openshell_drivers_contri.Ec2.Observe.{PollError, by_sandbox}
use openshell_drivers_contri.Ec2.Poll.{
  announce, miss_all, reconcile, sweep_after, after_termination, expire, expire_all, sweep,
  poll_listed, poll,
}
use openshell_drivers_contri.Ec2.Elsewhere.{
  IsElsewhere, OtherGroups, by_sandbox-OtherGroups, has_text-keys, reconcile-Same,
}
use openshell_drivers_contri.Ec2.Absence.{
  miss_all-Fading, FadingIn, Grows, Misses, miss_all-Misses, miss-counts, miss-drops,
}

module _ {S : Type 0} (provider : Provider S) (config : Config) where
  -- The provider lists no instance of the sandbox, and its calls leave the registry's records
  -- alone: no other goroutine changes them meanwhile.
  pub record ListsElsewhere (id : String) : Type 0 where
    pub lists :
        (f : InstanceFilter) (w : World S) (is : List Instance)
        → (provider.list f w).0 ≡ ok is
        → All (IsElsewhere id) is
    pub list_keeps :
        (f : InstanceFilter) (w : World S)
        → (provider.list f w).1.registry.records ≡ w.registry.records
    pub terminate_keeps :
        (ids : List String) (w : World S)
        → (provider.terminate ids w).1.registry.records ≡ w.registry.records

  -- The poll ends without an error.
  abbrev pub Succeeds : World S → Type 0
  Succeeds w = (poll provider config w).0 ≡ ok tt

  -- So many polls.
  abbrev pub polls : ℕ → World S → World S
  polls zero w = w
  polls (suc n) w = polls n (poll provider config w).1

  module _ (id : String) (elsewhere : ListsElsewhere id) (P : ℕ → Type 0) where
    after_termination-Fading :
        (rec : Record) (x : Result Failure (Unit {0}) × World S)
        → FadingIn S id P x.1
        → FadingIn S id P (after_termination provider config rec x)
    unfolding after_termination announce
    after_termination-Fading rec (err f, w) h = h
    after_termination-Fading rec (ok _, w) h = rw records-broadcast_sandbox (
        update-Fading id P w.registry rec.sandbox_id
          (λ r. record r {
            state = "shutting-down";
            last_status = some (sandbox_status r.name r.instance_id "shutting-down" w.clock);
          })
          (λ id rec h. record { keyed = h.keyed; bound = h.bound; often = h.often }) h)

    expire-Fading :
        (rec : Record) (w : World S)
        → FadingIn S id P w
        → FadingIn S id P (expire provider config rec w)
    unfolding expire
    expire-Fading rec w h =
        elim (Bool-cases (rec.instance_id == "" || rec.state == "shutting-down")) [
          | inl skipped ↦ rw skipped h
          | inr treated ↦ rw treated (
              after_termination-Fading rec (provider.terminate (rec.instance_id ∷ []) w)
                (subst (Fading id P) (sym (elsewhere.terminate_keeps (rec.instance_id ∷ []) w)) h))
        ]

    expire_all-Fading :
        (recs : List Record) (w : World S)
        → FadingIn S id P w
        → FadingIn S id P (expire_all provider config recs w)
    unfolding expire_all
    expire_all-Fading [] w h = h
    expire_all-Fading (rec ∷ recs) w h =
        expire_all-Fading recs (expire provider config rec w) (expire-Fading rec w h)

  module _ (id : String) (elsewhere : ListsElsewhere id) (P P' : ℕ → Type 0) (grows : Grows P)
      (grows' : Grows P')
      (misses : (seen : List String) → has_text id seen ≡ false → Misses S id seen P P') where
    miss_all-all :
        (seen : List String) (w : World S)
        → has_text id seen ≡ false
        → FadingIn S id P w
        → FadingIn S id P' (miss_all seen (Registry.all w.registry) w)
    miss_all-all seen w unseen (inr (rec, e, fading)) =
        miss_all-Misses S id seen P P' grows grows' (misses seen unseen) (Registry.all w.registry) w
          (all-HasMachine id w.registry P rec e fading) (inr (rec, e, fading))
    miss_all-all seen w unseen (inl gone) =
        weaken _ (
          miss_all-Fading S id seen (λ _. ⊥) (λ _ none. none) (Registry.all w.registry) w
            (inl gone))
      where
        weaken :
            (records : List (String × Record)) → Fading id (λ _. ⊥) records → Fading id P' records
        weaken records (inl gone) = inl gone
        weaken records (inr (rec, e, fading)) = absurd fading.often

    sweep_after-Fading :
        (seen : List String) (x : Result PollError (Unit {0}) × World S)
        → has_text id seen ≡ false
        → (sweep_after provider config seen x).0 ≡ ok tt
        → FadingIn S id P x.1
        → FadingIn S id P' (sweep_after provider config seen x).1
    unfolding sweep
    sweep_after-Fading seen (err f, w) unseen e h = absurd (cc)
    sweep_after-Fading seen (ok _, w) unseen e h =
        let w' = miss_all seen (Registry.all w.registry) w in
        expire_all-Fading id elsewhere P' (Registry.expired w'.registry w'.clock) w'
          (miss_all-all seen w unseen h)

    poll_listed-Fading :
        (x : Result Failure (List Instance) × World S)
        → ((is : List Instance) → x.0 ≡ ok is → All (IsElsewhere id) is)
        → (poll_listed provider config x).0 ≡ ok tt
        → FadingIn S id P x.1
        → FadingIn S id P' (poll_listed provider config x).1
    unfolding poll_listed
    poll_listed-Fading (err f, w) others e h = absurd (cc)
    poll_listed-Fading (ok is, w) others e h =
        let groups = by_sandbox is in
        let other : OtherGroups id groups = by_sandbox-OtherGroups id is (others is refl) in
        sweep_after-Fading (map (λ g. g.0) groups) (reconcile provider config groups w)
          (has_text-keys id groups other) e
          (moved w.registry.records (reconcile provider config groups w).1.registry.records
            (reconcile-Same id provider config elsewhere.terminate_keeps groups w other) h)
      where
        moved :
            (records records' : List (String × Record))
            → lookup id records' ≡ lookup id records
            → Fading id P records
            → Fading id P records'
        moved records records' same (inl gone) = inl (same ∙ gone)
        moved records records' same (inr (rec, tracked, fading)) = inr (rec, same ∙ tracked, fading)

    poll-Fading :
        (w : World S) → Succeeds w → FadingIn S id P w → FadingIn S id P' (poll provider config w).1
    unfolding poll
    poll-Fading w succeeds h =
        let f : InstanceFilter = record {
          gateway_id = config.gateway_id;
          sandbox_id = "";
          name = "";
        } in
        poll_listed-Fading (provider.list f w) (elsewhere.lists f w) succeeds
          (subst (Fading id P) (sym (elsewhere.list_keeps f w)) h)

  -- Where three polls in a row succeed, no listing holds an instance of a sandbox's ID, whatever it
  -- holds of others, and the provider's calls leave the records alone, the record of that sandbox,
  -- which has an instance, is gone after them; what expires during those polls makes no difference.
  pub polls-drop :
      (w : World S) (id : String) (rec : Record)
      → ListsElsewhere id
      → lookup id w.registry.records ≡ some rec
      → rec.sandbox_id ≡ id
      → (rec.instance_id == "") ≡ false
      → Succeeds w
      → Succeeds (polls 1 w)
      → Succeeds (polls 2 w)
      → lookup id (polls 3 w).registry.records ≡ none
  polls-drop w id rec elsewhere tracked keyed bound first second third = gone _ (
      poll-Fading id elsewhere (λ n. 2 ≤ n) (λ _. ⊥) (grows 2) (λ _ none. none) (miss-drops S id) _
        third
        (poll-Fading id elsewhere (λ n. 1 ≤ n) (λ n. 2 ≤ n) (grows 1) (grows 2) (counts 1) _ second
          (poll-Fading id elsewhere (λ n. 0 ≤ n) (λ n. 1 ≤ n) (grows 0) (grows 1) (counts 0) w first
            (inr (rec, tracked, record { keyed = keyed; bound = bound; often = omega arith })))))
    where
      grows : (k : ℕ) → Grows (λ n. k ≤ n)
      grows k n h = omega arith

      counts :
          (k : ℕ) (seen : List String)
          → has_text id seen ≡ false
          → Misses S id seen (λ n. k ≤ n) (λ n. k + 1 ≤ n)
      counts k seen unseen =
          miss-counts S id seen (λ n. k ≤ n) (λ n. k + 1 ≤ n) unseen λ n h. omega arith

      gone :
          (records : List (String × Record)) → Fading id (λ _. ⊥) records → lookup id records ≡ none
      gone records (inl e) = e
      gone records (inr (rec, e, fading)) = absurd fading.often
