-- ===== src/Ec2/Sorting.antt =====
-- Which sort the choice of drivers/ec2/instancetype.go uses does not matter.
use openshell_drivers_contri.Prelude.{◌≡◌, refl, String, true, none, some, Option}
use openshell_drivers_contri.Proto.Messages.{DriverResourceRequirements}
use openshell_drivers_contri.Quantity.Floats.{Floats}
use openshell_drivers_contri.Sizing.Select.{Sorter, less}
use openshell_drivers_contri.Sizing.Sorting.{all_differ, choose-sorter}
use openshell_drivers_contri.Ec2.Catalog.{instance_types, select_instance_type}

instance_types-all_differ : all_differ instance_types ≡ true
unfolding all_differ instance_types less
instance_types-all_differ = refl

-- The type that is selected, or the error, is the same for every sort that keeps its contract: the
-- catalog has no two types of one size, so that its unstable sort leaves no choice.
pub select_instance_type-sorter :
    (fl : Floats) (sorter sorter' : Sorter) (resources : Option DriverResourceRequirements)
    (default_type : String)
    → select_instance_type fl sorter resources default_type
      ≡ select_instance_type fl sorter' resources default_type
unfolding select_instance_type
select_instance_type-sorter fl sorter sorter' none default_type = refl
select_instance_type-sorter fl sorter sorter' (some r) default_type =
    rw (choose-sorter fl sorter sorter' instance_types r instance_types-all_differ) refl
