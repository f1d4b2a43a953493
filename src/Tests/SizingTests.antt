-- ===== src/Tests/SizingTests.antt =====
-- The choice of an instance type at concrete requests.
use openshell_drivers_contri.Prelude.{◌≡◌, refl, inl, true}
use openshell_drivers_contri.Proto.Messages.{DriverResourceRequirements}
use openshell_drivers_contri.Quantity.Parse.{parse_cpu}
use openshell_drivers_contri.Sizing.Select.{demand, choose}
use openshell_drivers_contri.Sizing.Laws.{Choice, choose-Choice, demand-Covers}
use openshell_drivers_contri.Ec2.Catalog.{instance_types}
use openshell_drivers_contri.Tests.Fixtures.{
  whole_floats, whole_floats-FloatOrder, insertion_sorter, read_number, max_of,
}

abbrev modest_request : DriverResourceRequirements
modest_request = record {
  cpu_request = "2";
  cpu_limit = "4";
  memory_request = "16Gi";
  memory_limit = "";
}

choose-Choice_example :
    Choice whole_floats instance_types modest_request
      (choose whole_floats insertion_sorter instance_types modest_request)
choose-Choice_example = choose-Choice whole_floats insertion_sorter instance_types modest_request

demand-Covers_example : whole_floats.le 2 4 ≡ true
unfolding demand parse_cpu read_number max_of
demand-Covers_example =
    demand-Covers whole_floats whole_floats-FloatOrder (parse_cpu whole_floats) "2" "4" 4 2 4
      (λ _ _ _. refl) refl refl (inl (refl, refl))
