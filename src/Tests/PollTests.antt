-- ===== src/Tests/PollTests.antt =====
-- Polls of the EC2 driver in a row, and its choice of a type under two sorts.
use openshell_drivers_contri.Prelude.{◌≡◌, refl, none, some, List, [], ◌∷◌, All, subst}
use openshell_drivers_contri.Prelude.Assoc.{lookup, insert}
use openshell_drivers_contri.Prelude.Result.{Result, ok}
use openshell_drivers_contri.Service.{World}
use openshell_drivers_contri.Ec2.Catalog.{select_instance_type}
use openshell_drivers_contri.Ec2.Provider.{Provider, Instance, Failure}
use openshell_drivers_contri.Service.Grouping.{sort_by, group_by, add_to}
use openshell_drivers_contri.Ec2.Observe.{by_sandbox, sort_instances}
use openshell_drivers_contri.Ec2.Poll.{
  poll, poll_listed, reconcile, reconcile_sorted, drop_duplicates, settle,
}
use openshell_drivers_contri.Ec2.Elsewhere.{IsElsewhere}
use openshell_drivers_contri.Ec2.Dropping.{Succeeds, polls, polls-drop}
use openshell_drivers_contri.Ec2.Sorting.{select_instance_type-sorter}
use openshell_drivers_contri.Tests.Ec2Tests.{
  willing, tracking, tracked_box, config, instance_of, vast_request,
}
use openshell_drivers_contri.Tests.Fixtures.{whole_floats, insertion_sorter}

abbrev box_of_another : List Instance
box_of_another = record (instance_of "i-9" "terminated") { sandbox_id = "other" } ∷ []

-- It lists a terminated instance of another sandbox.
abbrev listing_other : Provider (Unit {0})
listing_other = record willing { list = λ _ w. (ok box_of_another, w) }

listing_other-Succeeds : (w : World (Unit {0})) → Succeeds listing_other config w
unfolding poll poll_listed reconcile reconcile_sorted drop_duplicates settle by_sandbox group_by
    add_to sort_instances sort_by lookup insert
listing_other-Succeeds w = refl

polls-drop_example : lookup "box" (polls listing_other config 3 tracking).registry.records ≡ none
unfolding lookup
polls-drop_example =
    polls-drop listing_other config tracking "box" tracked_box
      (record {
        lists = λ _ _ is e. others is e;
        list_keeps = λ _ _. refl;
        terminate_keeps = λ _ _. refl;
      })
      refl refl refl (listing_other-Succeeds tracking)
      (listing_other-Succeeds (polls listing_other config 1 tracking))
      (listing_other-Succeeds (polls listing_other config 2 tracking))
  where
    others :
        (is : List Instance)
        → ◌≡◌ {A = Result Failure (List Instance)} (ok box_of_another) (ok is)
        → All (IsElsewhere "box") is
    others is e =
        let same : box_of_another ≡ is = cc in subst (All (IsElsewhere "box")) same (refl, tt)

select_instance_type-sorter_example :
    select_instance_type whole_floats insertion_sorter (some vast_request) "c7i.large"
    ≡ select_instance_type whole_floats insertion_sorter (some vast_request) "c7i.large"
select_instance_type-sorter_example =
    select_instance_type-sorter whole_floats insertion_sorter insertion_sorter (some vast_request)
      "c7i.large"
