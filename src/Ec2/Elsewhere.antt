-- ===== src/Ec2/Elsewhere.antt =====
-- What a round of `poll` of drivers/ec2/watcher.go over the sandboxes that it has seen leaves of the
-- record of another one.
use openshell_drivers_contri.Prelude.{
  ◌≡◌, refl, ◌∙◌, String, false, List, [], ◌∷◌, ◌==◌, All, Bool-cases, inl, inr, some, map,
}
use openshell_drivers_contri.Prelude.Assoc.{lookup}
use openshell_drivers_contri.Prelude.Result.{Result, ok, err}
use openshell_drivers_contri.Safeguards.Records.{Record}
use openshell_drivers_contri.Safeguards.Registry.{Registry, Error, get, add, delete}
use openshell_drivers_contri.Safeguards.Lookups.{
  records-broadcast_sandbox, records-broadcast_deleted,
}
use openshell_drivers_contri.Safeguards.Elsewhere.{update_other, delete_other, add_other}
use openshell_drivers_contri.Service.{World}
use openshell_drivers_contri.Service.Grouping.{has_text}
use openshell_drivers_contri.Service.Groups.{sort_by-All, group_by-Grouped}
use openshell_drivers_contri.Ec2.Config.{Config}
use openshell_drivers_contri.Ec2.Provider.{Instance, Failure, Provider}
use openshell_drivers_contri.Ec2.Conditions.{record_from_instance}
use openshell_drivers_contri.Ec2.Observe.{
  PollError, by_sandbox, sort_instances, earlier, recovered_record, untrusted, differs,
  observed_record,
}
use openshell_drivers_contri.Ec2.Poll.{
  complete, recover, tracked, follow, settle, refused, continue, duplicate_ids, drop_duplicates,
  reconcile_sorted, reconcile,
}

module _ (id : String) where
  -- An instance, or a key, of another sandbox.
  abbrev pub IsOther : String → Type 0
  IsOther sid = (sid == id) ≡ false

  abbrev pub IsElsewhere : Instance → Type 0
  IsElsewhere i = IsOther i.sandbox_id

  abbrev pub OtherGroups : List (String × List Instance) → Type 0
  OtherGroups = All (λ g. IsOther g.0 × All IsElsewhere g.1)

  pub by_sandbox-OtherGroups :
      (is : List Instance) → All IsElsewhere is → OtherGroups (by_sandbox is)
  unfolding by_sandbox
  by_sandbox-OtherGroups is h =
      group_by-Grouped IsElsewhere (λ i. i.sandbox_id) IsOther (λ i h. h) [] is tt h

  pub has_text-keys :
      (groups : List (String × List Instance))
      → OtherGroups groups
      → has_text id (map (λ g. g.0) groups) ≡ false
  unfolding has_text
  has_text-keys [] h = refl
  has_text-keys (g ∷ groups) h = rw (h.0.0, has_text-keys groups h.1) refl

  module _ {S : Type 0} where
    -- The record of the sandbox is as it was.
    abbrev pub Same : World S → World S → Type 0
    Same w w' = lookup id w'.registry.records ≡ lookup id w.registry.records

    complete-Same : (k : String) (w : World S) → IsOther k → Same w (complete k w)
    unfolding complete
    complete-Same k w other = elim (Bool-cases (delete w.registry k).2) [
      | inl e ↦ rw (e, records-broadcast_deleted, delete_other w.registry k id other) refl
      | inr e ↦ rw (e, delete_other w.registry k id other) refl
    ]

    follow-Same :
        (k : String) (i : Instance) (rec : Record) (w : World S)
        → IsOther k
        → Same w (follow k i rec w)
    unfolding follow
    follow-Same k i rec w other =
        let kept = update_other w.registry k id other (observed_record w.clock i) in
        elim (Bool-cases (differs rec i)) [
          | inr e ↦ rw e refl
          | inl e ↦ elim (Bool-cases (rec.state == i.state)) [
            | inl e' ↦ rw (e, e') kept
            | inr e' ↦ rw (e, e', records-broadcast_sandbox) kept
          ]
        ]

    tracked-Same :
        (k : String) (rec : Record) (x : Registry × Result Error (Unit {0})) (w : World S)
        → lookup id x.0.records ≡ lookup id w.registry.records
        → Same w (tracked k rec x w).1
    unfolding tracked
    tracked-Same k rec (r, ok _) w h = rw records-broadcast_sandbox h
    tracked-Same k rec (r, err e) w h = h

    recover-Same :
        (config : Config) (k : String) (i : Instance) (w : World S)
        → IsElsewhere i
        → Same w (recover config k i w).1
    unfolding recover recovered_record record_from_instance
    recover-Same config k i w other =
        let rec = recovered_record config w.clock i in
        tracked-Same k rec (add w.registry (some rec)) w (
          add_other w.registry rec id (elim (Bool-cases (untrusted w.clock i.created_at)) [
            | inl e ↦ rw e other
            | inr e ↦ rw e other
          ]))

    settle-Same :
        (config : Config) (k : String) (i : Instance) (w : World S)
        → IsOther k
        → IsElsewhere i
        → Same w (settle config k i w).1
    unfolding settle
    settle-Same config k i w other elsewhere = elim (Bool-cases (i.state == "terminated")) [
      | inl e ↦ rw e (complete-Same k w other)
      | inr e ↦ elim (Bool-cases (get w.registry k).1) [
        | inl e' ↦ rw (e, e') (follow-Same k i (get w.registry k).0 w other)
        | inr e' ↦ rw (e, e') (recover-Same config k i w elsewhere)
      ]
    ]

  module _ {S : Type 0} (provider : Provider S) (config : Config)
      (keeps : (ids : List String) (w : World S)
        → (provider.terminate ids w).1.registry.records ≡ w.registry.records) where
    refused-Same :
        (k : String) (x : Result Failure (Unit {0}) × World S) (w : World S)
        → x.1.registry.records ≡ w.registry.records
        → Same w (refused provider config k x).1
    refused-Same k (ok _, w') w h = rw h refl
    refused-Same k (err f, w') w h = rw h refl

    drop_duplicates-Same :
        (k : String) (is : List Instance) (w : World S)
        → Same w (drop_duplicates provider config k is w).1
    unfolding drop_duplicates
    drop_duplicates-Same k [] w = refl
    drop_duplicates-Same k (i ∷ is) w =
        refused-Same k (provider.terminate (duplicate_ids (i ∷ is)) w) w
          (keeps (duplicate_ids (i ∷ is)) w)

    continue-Same :
        (x : Result PollError (Unit {0}) × World S)
        (next : World S → Result PollError (Unit {0}) × World S) (w : World S)
        → Same w x.1
        → ((w' : World S) → Same w' (next w').1)
        → Same w (continue provider config x next).1
    continue-Same (ok _, w') next w h after = after w' ∙ h
    continue-Same (err e, w') next w h after = h

    reconcile_sorted-Same :
        (k : String) (is : List Instance) (w : World S)
        → IsOther k
        → All IsElsewhere is
        → Same w (reconcile_sorted provider config k is w).1
    unfolding reconcile_sorted
    reconcile_sorted-Same k [] w other h = refl
    reconcile_sorted-Same k (oldest ∷ others) w other h =
        continue-Same (drop_duplicates provider config k others w) (settle config k oldest) w
          (drop_duplicates-Same k others w) λ w'. settle-Same config k oldest w' other h.0

    pub reconcile-Same :
        (groups : List (String × List Instance)) (w : World S)
        → OtherGroups groups
        → Same w (reconcile provider config groups w).1
    unfolding reconcile sort_instances
    reconcile-Same [] w h = refl
    reconcile-Same ((k, matches) ∷ groups) w h =
        continue-Same (reconcile_sorted provider config k (sort_instances matches) w)
          (reconcile provider config groups) w
          (reconcile_sorted-Same k (sort_instances matches) w h.0.0
            (sort_by-All IsElsewhere earlier matches h.0.1))
          λ w'. reconcile-Same groups w' h.1
