-- ===== src/Safeguards/Records.antt =====
-- `Limits` and `Record` of pkg/safeguards/safeguards.go. A time is the number of nanoseconds since
-- Go's zero time, so `IsZero` is a test against 0; a duration that the source tests for its sign is
-- an integer.
use openshell_drivers_contri.Prelude.{
  ℕ, ◌*◌, ◌≡◌, refl, String, Option, none, some, ltb, if◌then◌else◌,
}
use openshell_drivers_contri.Prelude.Int.{ℤ, pos, negsuc}
use openshell_drivers_contri.Proto.Messages.{DriverSandboxSpec, DriverSandboxStatus, DriverSandbox}

-- time.Time
abbrev pub Time : Type 0
Time = ℕ

abbrev pub second : ℕ
second = 1000000000

abbrev pub minute : ℕ
minute = 60 * second

abbrev pub hour : ℕ
hour = 60 * minute

abbrev pub default_max_instances : ℕ
default_max_instances = 10

abbrev pub default_max_instance_age : ℕ
default_max_instance_age = 8 * hour

abbrev pub watch_buffer_size : ℕ
watch_buffer_size = 64

pub record Limits : Type 0 where
  pub max_instances : ℤ
  pub max_instance_age : ℤ

-- A positive value, or the default.
abbrev positive_or : ℕ → ℤ → ℕ
positive_or d (pos n) = if ltb 0 n then n else d
positive_or d (negsuc n) = d

unfoldable pub effective_max_instances : Limits → ℕ
effective_max_instances l = positive_or default_max_instances l.max_instances

unfoldable pub effective_max_age : Limits → ℕ
effective_max_age l = positive_or default_max_instance_age l.max_instance_age

pub record Record : Type 0 where
  pub sandbox_id : String
  pub name : String
  pub namespace : String
  pub workspace : String
  pub instance_id : String
  pub state : String
  pub created_at : Time
  pub missing_polls : ℕ
  pub spec : Option DriverSandboxSpec
  pub last_status : Option DriverSandboxStatus
  pub lease : ℕ

-- Record{}
abbrev pub zero_record : Record
zero_record = record {
  sandbox_id = "";
  name = "";
  namespace = "";
  workspace = "";
  instance_id = "";
  state = "";
  created_at = 0;
  missing_polls = 0;
  spec = none;
  last_status = none;
  lease = 0;
}

-- A message is a value here, so `proto.Clone` is the identity.
unfoldable pub clone_redacted_spec : Option DriverSandboxSpec → Option DriverSandboxSpec
clone_redacted_spec none = none
clone_redacted_spec (some spec) = some (record spec { sandbox_token = "" })

unfoldable pub clone_status : Option DriverSandboxStatus → Option DriverSandboxStatus
clone_status none = none
clone_status (some status) = some status

unfoldable pub clone_record : Record → Record
unfolding clone_redacted_spec clone_status
clone_record rec = record rec {
  spec = clone_redacted_spec rec.spec;
  last_status = clone_status rec.last_status;
}

unfoldable pub to_driver_sandbox : Record → DriverSandbox
unfolding clone_redacted_spec clone_status
to_driver_sandbox r = record {
  id = r.sandbox_id;
  name = r.name;
  namespace = r.namespace;
  spec = clone_redacted_spec r.spec;
  status = clone_status r.last_status;
  workspace = r.workspace;
}

-- No token is left in a spec.
abbrev pub SpecIsRedacted : Option DriverSandboxSpec → Type 0
SpecIsRedacted none = Unit
SpecIsRedacted (some spec) = spec.sandbox_token ≡ ""

pub clone_redacted_spec-SpecIsRedacted :
    (spec : Option DriverSandboxSpec) → SpecIsRedacted (clone_redacted_spec spec)
unfolding clone_redacted_spec
clone_redacted_spec-SpecIsRedacted none = tt
clone_redacted_spec-SpecIsRedacted (some spec) = refl

-- A redacted spec is its own copy.
pub clone_redacted_spec_redacted :
    (spec : Option DriverSandboxSpec) → SpecIsRedacted spec → clone_redacted_spec spec ≡ spec
unfolding clone_redacted_spec
clone_redacted_spec_redacted none h = refl
clone_redacted_spec_redacted (some spec) h = λ i. some (record spec { sandbox_token = sym_token i })
  where
    sym_token : "" ≡ spec.sandbox_token
    sym_token = cc

pub clone_status_lem : (s : Option DriverSandboxStatus) → clone_status s ≡ s
unfolding clone_status
clone_status_lem none = refl
clone_status_lem (some s) = refl
