-- ===== src/Sizing/Select.antt =====
-- The choice of an instance type: the demand that the requests and limits make, and the first type
-- that meets it in the catalog sorted by vCPUs and then by memory. The capacities are whole numbers
-- in both catalogs; they become floats where they are compared with the demand.
use openshell_drivers_contri.Prelude.{
  ℕ, String, ◌≡◌, Bool, false, not, ◌&&◌, List, [], ◌∷◌, ltb, eqb, ◌==◌, if◌then◌else◌, All,
}
use openshell_drivers_contri.Prelude.Result.{Result, ok, err, ◌>>=◌}
use openshell_drivers_contri.Proto.Messages.{DriverResourceRequirements}
use openshell_drivers_contri.Quantity.Floats.{Floats}
use openshell_drivers_contri.Quantity.Parse.{parse_cpu, parse_memory}
use openshell_drivers_contri.Quantity.Parse as Parse
use mathlib.Core.List.{Permᴰ}

pub record InstanceSpec : Type 0 where
  pub name : String
  pub vcpus : ℕ
  pub memory_mib : ℕ

-- ErrNoInstanceType, or a quantity that does not parse.
pub data Error : Type 0 where
  no_instance_type : Error
  bad_quantity : Parse.Error → Error

-- The comparison that is handed to sort.Slice.
unfoldable pub less : InstanceSpec → InstanceSpec → Bool
less a b = if not (eqb a.vcpus b.vcpus) then ltb a.vcpus b.vcpus else ltb a.memory_mib b.memory_mib

-- No later element is below an earlier one.
abbrev pub Ascending : List InstanceSpec → Type 0
Ascending [] = Unit
Ascending (x ∷ xs) = All (λ y. less y x ≡ false) xs × Ascending xs

-- sort.Slice(sorted, less): it may put elements that are equal in the order in any order.
pub record Sorter : Type 0 where
  pub sort_slice : List InstanceSpec → List InstanceSpec
  pub sorted : (xs : List InstanceSpec) → Ascending (sort_slice xs)
  pub permuted : (xs : List InstanceSpec) → Permᴰ xs (sort_slice xs)

-- cpuReq == "" && cpuLimit == "" && memReq == "" && memLimit == ""
unfoldable pub asks_nothing : DriverResourceRequirements → Bool
asks_nothing r =
    r.cpu_request == "" && (r.cpu_limit == "" && (r.memory_request == "" && r.memory_limit == ""))

module _ (fl : Floats) where
  open fl use {Float, zero_float, ratio, le, max}

  lift : {A : Type 0} → Result Parse.Error A → Result Error A
  lift (ok a) = ok a
  lift (err e) = err (bad_quantity e)

  -- if request != "" { v, err := parse(request); … value = v }
  from_request : (String → Result Parse.Error Float) → String → Result Error Float
  unfolding lift
  from_request parse request = if request == "" then ok zero_float else lift (parse request)

  -- if limit != "" { v, err := parse(limit); … value = math.Max(value, v) }
  with_limit : (String → Result Parse.Error Float) → String → Float → Result Error Float
  unfolding lift
  with_limit parse limit value =
      if limit == "" then ok value else (do v ← lift (parse limit); ok (max value v))

  unfoldable pub demand : (String → Result Parse.Error Float) → String → String → Result Error Float
  unfolding from_request with_limit
  demand parse request limit = do value ← from_request parse request; with_limit parse limit value

  -- inst.VCPUs >= cpuVCPUs && inst.MemoryMiB >= memMiB
  unfoldable pub fits : Float → Float → InstanceSpec → Bool
  fits cpu mem inst = le cpu (ratio inst.vcpus 1) && le mem (ratio inst.memory_mib 1)

  unfoldable pub first_fit : Float → Float → List InstanceSpec → Result Error InstanceSpec
  unfolding fits
  first_fit cpu mem [] = err no_instance_type
  first_fit cpu mem (inst ∷ rest) =
      let later = first_fit cpu mem rest in if fits cpu mem inst then ok inst else later

  -- The part after the early returns, which both drivers have word for word.
  unfoldable pub choose :
      Sorter → List InstanceSpec → DriverResourceRequirements → Result Error InstanceSpec
  choose sorter catalog r = do
    cpu ← demand (parse_cpu fl) r.cpu_request r.cpu_limit
    mem ← demand (parse_memory fl) r.memory_request r.memory_limit
    first_fit cpu mem (sorter.sort_slice catalog)
