-- ===== src/Service/Actions.antt =====
-- What the handlers of drivers/ec2/driver.go and drivers/kubevirt/driver.go have in common: the status
-- of an error, and the calls of the registry as actions.
use openshell_drivers_contri.Prelude.{ℕ, String}
use openshell_drivers_contri.Prelude.Result.{ok}
use openshell_drivers_contri.Quantity.Floats.{Floats}
use openshell_drivers_contri.Sizing.Select.{Sorter}
use openshell_drivers_contri.Sizing.Select as Sizing
use openshell_drivers_contri.Safeguards.Records.{Record, effective_max_age}
use openshell_drivers_contri.Safeguards.Registry as Registry
use openshell_drivers_contri.Safeguards.Registry.{err_capacity}
use openshell_drivers_contri.Service.{
  Code, Message, Status, Exec, lift, Invalid, of_validation, of_quantity, no_instance_type_text,
  sandbox_exists, capacity_exhausted, invalid_bootstrap_data, invalid_argument, already_exists,
  resource_exhausted,
}
use openshell_drivers_contri.Bootstrap.Library.{Library}
use openshell_drivers_contri.Bootstrap.Render.{UserDataError}

-- What the handlers take from elsewhere: the floats and the sort of the standard library, its text of
-- a duration, the hexadecimal SHA-256 digest, and what the bootstrap data needs.
pub record Platform : Type 1 where
  pub floats : Floats
  pub sorter : Sorter
  pub duration_text : ℕ → String
  pub sha256_hex : String → String
  pub library : Library

abbrev pub status : Code → Message → Status
status code message = record { code = code; message = message }

abbrev pub invalid_status : Invalid → Status
invalid_status e = status invalid_argument (of_validation e)

abbrev pub sizing_status : Sizing.Error → Status
sizing_status Sizing.no_instance_type = status resource_exhausted no_instance_type_text
sizing_status (Sizing.bad_quantity e) = status invalid_argument (of_quantity e)

abbrev pub reserve_status : Registry.Error → Status
reserve_status Registry.err_capacity = status resource_exhausted capacity_exhausted
reserve_status _ = status already_exists sandbox_exists

abbrev pub bootstrap_status : UserDataError → Status
bootstrap_status e = status invalid_argument (invalid_bootstrap_data e)

-- Registry methods as actions.
module _ {S : Type 0} where
  unfoldable pub try_reserve : Record → Exec S (Unit {0})
  try_reserve rec w =
      let (r, result) = Registry.reserve w.registry rec in
      lift reserve_status result (record w { registry = r })

  -- d.registry.ReserveWithLease
  unfoldable pub try_reserve_with_lease : Record → Exec S ℕ
  try_reserve_with_lease rec w =
      let (r, result) = Registry.reserve_with_lease w.registry rec in
      lift reserve_status result (record w { registry = r })

  -- d.registry.MaxLifetimeString(), by the text of a duration
  abbrev pub max_lifetime : (ℕ → String) → Exec S String
  max_lifetime duration_text w = (ok (duration_text (effective_max_age w.registry.limits)), w)
