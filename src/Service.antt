-- ===== src/Service.antt =====
-- What the handlers of drivers/ec2/driver.go and drivers/kubevirt/driver.go share: gRPC statuses, the
-- process's state, and handlers that change it and may fail.
pub mod Actions
pub mod Rollback
pub mod Ensures
pub mod Grouping
pub mod Groups
pub mod Restores
use openshell_drivers_contri.Bootstrap.Render.{UserDataError}
use openshell_drivers_contri.Prelude.{ℕ, String, List}
use openshell_drivers_contri.Prelude.Result.{Result, ok, err}
use openshell_drivers_contri.Safeguards.Records.{Time}
use openshell_drivers_contri.Safeguards.Registry.{Registry}
use openshell_drivers_contri.Quantity.Parse as Parse

-- google.golang.org/grpc/codes, those that the drivers return
pub data Code : Type 0 where
  canceled invalid_argument deadline_exceeded not_found already_exists permission_denied : Code
  resource_exhausted failed_precondition aborted internal unavailable : Code

-- Why a sandbox is refused by `validateSandbox`.
pub data Invalid : Type 0 where
  sandbox_required spec_required template_required gpu_unsupported fields_unsupported : Invalid
  required has_control_character : String → Invalid
  exceeds : String → ℕ → Invalid
  unsupported_log_level : String → Invalid
  bad_requirements : List (Parse.Field × Parse.Error) → Invalid

-- The text of a status: one that the source spells out, or that of the error that it wraps.
pub data Message : Type 0 where
  literal : String → Message
  of_validation : Invalid → Message
  of_quantity : Parse.Error → Message
  no_instance_type_text sandbox_exists capacity_exhausted : Message
  invalid_bootstrap_data : UserDataError → Message

pub record Status : Type 0 where
  pub code : Code
  pub message : Message

-- The process and what lies outside it: the registry, a state of the cloud, and the clock.
pub record World (S : Type 0) : Type 0 where
  pub registry : Registry
  pub cloud : S
  pub clock : Time

-- A handler returns the new world beside its result, also when it fails.
abbrev pub Exec : Type 0 → Type 0 → Type 0
Exec S A = World S → Result Status A × World S

module _ {S A : Type 0} where
  abbrev pub pure : A → Exec S A
  pure a w = (ok a, w)

  abbrev pub fail : Code → Message → Exec S A
  fail code message w = (err (record { code = code; message = message }), w)

  abbrev pub lift : {E : Type 0} → (E → Status) → Result E A → Exec S A
  lift status (ok a) w = (ok a, w)
  lift status (err e) w = (err (status e), w)

abbrev pub now : {S : Type 0} → Exec S Time
now w = (ok w.clock, w)

module _ {S A B : Type 0} where
  abbrev continue : Result Status A → (A → Exec S B) → Exec S B
  continue (ok a) f w = f a w
  continue (err s) f w = (err s, w)

  infixl 10 ◌>>=◌ ◌>>◌
  abbrev pub ◌>>=◌ : Exec S A → (A → Exec S B) → Exec S B
  ◌>>=◌ m f w = let (r, w') = m w in continue r f w'

  abbrev pub ◌>>◌ : Exec S A → Exec S B → Exec S B
  m >> n = m >>= λ _. n
