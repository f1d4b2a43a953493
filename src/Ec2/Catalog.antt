-- ===== src/Ec2/Catalog.antt =====
-- drivers/ec2/instancetype.go
use openshell_drivers_contri.Prelude.{ℕ, String, Option, none, some, List, [], ◌∷◌, if◌then◌else◌}
use openshell_drivers_contri.Prelude.Result.{Result, ok, ◌>>=◌}
use openshell_drivers_contri.Proto.Messages.{DriverResourceRequirements}
use openshell_drivers_contri.Quantity.Floats.{Floats}
use openshell_drivers_contri.Sizing.Select.{InstanceSpec, Error, Sorter, choose, asks_nothing}

abbrev of_size : String → ℕ → ℕ → InstanceSpec
of_size name vcpus memory_mib = record { name = name; vcpus = vcpus; memory_mib = memory_mib }

unfoldable pub instance_types : List InstanceSpec
instance_types =
    of_size "c7i.large" 2 4096
    ∷ of_size "c7i.xlarge" 4 8192
    ∷ of_size "c7i.2xlarge" 8 16384
    ∷ of_size "c7i.4xlarge" 16 32768
    ∷ of_size "c7i.8xlarge" 32 65536
    ∷ of_size "c7i.12xlarge" 48 98304
    ∷ of_size "c7i.16xlarge" 64 131072
    ∷ of_size "c7i.24xlarge" 96 196608
    ∷ of_size "c7i.48xlarge" 192 393216
    ∷ of_size "m7i.large" 2 8192
    ∷ of_size "m7i.xlarge" 4 16384
    ∷ of_size "m7i.2xlarge" 8 32768
    ∷ of_size "m7i.4xlarge" 16 65536
    ∷ of_size "m7i.8xlarge" 32 131072
    ∷ of_size "m7i.12xlarge" 48 196608
    ∷ of_size "m7i.16xlarge" 64 262144
    ∷ of_size "m7i.24xlarge" 96 393216
    ∷ of_size "m7i.48xlarge" 192 786432
    ∷ of_size "r7i.large" 2 16384
    ∷ of_size "r7i.xlarge" 4 32768
    ∷ of_size "r7i.2xlarge" 8 65536
    ∷ of_size "r7i.4xlarge" 16 131072
    ∷ of_size "r7i.8xlarge" 32 262144
    ∷ of_size "r7i.12xlarge" 48 393216
    ∷ of_size "r7i.16xlarge" 64 524288
    ∷ of_size "r7i.24xlarge" 96 786432
    ∷ of_size "r7i.48xlarge" 192 1572864
    ∷ []

module _ (fl : Floats) (sorter : Sorter) where
  unfoldable pub select_instance_type :
      Option DriverResourceRequirements → String → Result Error String
  unfolding asks_nothing
  select_instance_type none default_type = ok default_type
  select_instance_type (some r) default_type =
      if asks_nothing r
      then ok default_type
      else (do inst ← choose fl sorter instance_types r; ok inst.name)
