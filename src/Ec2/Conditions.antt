-- ===== src/Ec2/Conditions.antt =====
-- `ec2StateToConditionsAt`, `sandboxStatus`, `recordFromInstance` and `providerError` of
-- drivers/ec2/driver.go.
use Prim.Native.Char.{code}
use Prim.Native.String.{◌++◌ as concat}
use openshell_drivers_contri.Prelude.{
  ℕ, ◌+◌, String, Bool, true, false, ◌&&◌, ◌||◌, Option, none, some, List, [], ◌∷◌, leb, eqb, ◌==◌,
  if◌then◌else◌,
}
use openshell_drivers_contri.Proto.Messages.{
  DriverCondition, DriverSandboxStatus, DriverSandbox, WatchSandboxesEvent, sandbox,
}
use openshell_drivers_contri.Safeguards.Records.{Time, Record, to_driver_sandbox}
use openshell_drivers_contri.Prelude.Result.{Result}
use openshell_drivers_contri.Service.{
  World, Exec, lift, Status, literal, canceled, deadline_exceeded, permission_denied, unavailable,
  failed_precondition,
}
use openshell_drivers_contri.Ec2.Provider.{Instance, Failure}

-- The text that the source concatenates with a state is kept beside it.
abbrev condition : String → String → String → Time → DriverCondition
condition status reason message transition = record {
  type = "Ready";
  status = status;
  reason = reason;
  message = message;
  last_transition_time = transition;
}

unfoldable pub condition_of_state : String → Time → DriverCondition
condition_of_state state transition =
    if state == "launching" || state == "pending"
    then condition "False" "Provisioning" "EC2 instance is pending" transition
    else if state == "running"
    then condition "True" "Running" "EC2 instance is running" transition
    else if state == "stopping"
    then condition "False" "Stopping" "EC2 instance is stopping" transition
    else if state == "stopped"
    then condition "False" "Stopped" "EC2 instance is stopped" transition
    else if state == "shutting-down" || state == "terminated"
    then condition "False" "Terminating" "EC2 instance is terminating" transition
    else condition "Unknown" "Unknown" (concat "unknown EC2 state: " state) transition

unfoldable pub ec2_state_to_conditions_at : String → Time → List DriverCondition
unfolding condition_of_state
ec2_state_to_conditions_at state transition = condition_of_state state transition ∷ []

unfoldable pub sandbox_status : String → String → String → Time → DriverSandboxStatus
sandbox_status name instance_id state transition = record {
  sandbox_name = name;
  instance_id = instance_id;
  agent_fd = "";
  sandbox_fd = "";
  conditions = ec2_state_to_conditions_at state transition;
  deleting = false;
}

unfoldable pub record_from_instance : Instance → Time → Record
record_from_instance instance' now = record {
  sandbox_id = instance'.sandbox_id;
  name = instance'.name;
  namespace = instance'.namespace;
  workspace = instance'.workspace;
  instance_id = instance'.id;
  state = instance'.state;
  created_at = instance'.created_at;
  missing_polls = 0;
  spec = none;
  last_status = some (sandbox_status instance'.name instance'.id instance'.state now);
  lease = 0;
}

unfoldable pub instance_to_driver_sandbox : Instance → Time → DriverSandbox
unfolding record_from_instance
instance_to_driver_sandbox instance' now = to_driver_sandbox (record_from_instance instance' now)

unfoldable pub sandbox_event : Record → WatchSandboxesEvent
sandbox_event rec = sandbox (to_driver_sandbox rec)

-- strings.ToLower and strings.Contains, on the code points of an ASCII text.
lower : String → List ℕ
lower String.[] = []
lower (String.◌∷◌ c s) =
    (let n = code c in if leb b'A' n && leb n b'Z' then n + 32 else n) ∷ lower s

is_prefix : List ℕ → List ℕ → Bool
is_prefix [] ys = true
is_prefix (x ∷ xs) [] = false
is_prefix (x ∷ xs) (y ∷ ys) = eqb x y && is_prefix xs ys

contains_codes : List ℕ → List ℕ → Bool
unfolding is_prefix
contains_codes needle [] = is_prefix needle []
contains_codes needle (y ∷ ys) = is_prefix needle (y ∷ ys) || contains_codes needle ys

-- strings.Contains(strings.ToLower(code), needle)
unfoldable pub mentions : String → String → Bool
unfolding lower contains_codes
mentions needle api_code = contains_codes (lower needle) (lower api_code)

-- The switch on the code of an API error; `none` where no case fits.
unfoldable pub status_of_api_code : String → Option Status
unfolding mentions
status_of_api_code c =
    if mentions "unauthor" c || mentions "accessdenied" c
    then some
        (record { code = permission_denied; message = literal "AWS denied the EC2 operation" })
    else if mentions "throttl" c || mentions "requestlimit" c
    then some (record {
      code = unavailable;
      message = literal "AWS temporarily throttled the EC2 operation";
    })
    else if mentions "invalidparameter" c || (mentions "invalidami" c || mentions "invalidsubnet" c)
    then some (record {
      code = failed_precondition;
      message = literal "AWS infrastructure configuration rejected the operation";
    })
    else none

or_unavailable : Option Status → Status
or_unavailable (some s) = s
or_unavailable none = record { code = unavailable; message = literal "EC2 operation failed" }

api_status : Option String → Status
unfolding or_unavailable status_of_api_code
api_status none = or_unavailable none
api_status (some c) = or_unavailable (status_of_api_code c)

unfoldable pub provider_error : Failure → Status
unfolding api_status
provider_error f =
    if f.err_canceled || f.ctx_canceled
    then record { code = canceled; message = literal "operation canceled" }
    else if f.err_deadline || f.ctx_deadline
    then record { code = deadline_exceeded; message = literal "provider operation timed out" }
    else api_status f.api_code

-- A call of the provider: a failure becomes the status that `providerError` gives it.
abbrev pub request : {S A : Type 0} → (World S → Result Failure A × World S) → Exec S A
request call w = let (result, w') = call w in lift provider_error result w'
