-- ===== src/Kubevirt/Conditions.antt =====
-- `vmiStateToConditionsAt`, `sandboxStatus`, `recordFromInstance` and `providerError` of
-- drivers/kubevirt/driver.go.
use Prim.Native.String.{◌++◌ as concat}
use openshell_drivers_contri.Prelude.{
  String, Bool, false, ◌||◌, none, some, List, [], ◌∷◌, ◌==◌, if◌then◌else◌,
}
use openshell_drivers_contri.Proto.Messages.{DriverCondition, DriverSandboxStatus, DriverSandbox}
use openshell_drivers_contri.Safeguards.Records.{Time, Record, to_driver_sandbox}
use openshell_drivers_contri.Prelude.Result.{Result}
use openshell_drivers_contri.Service.{
  World, Exec, lift, Code, Status, literal, canceled, deadline_exceeded, permission_denied,
  unavailable, not_found, aborted, failed_precondition,
}
use openshell_drivers_contri.Kubevirt.Provider.{VmInstance, Failure}

-- Whether the text is one of the list: the cases of one branch of a switch.
unfoldable pub one_of : String → List String → Bool
one_of s [] = false
one_of s (t ∷ ts) = s == t || one_of s ts

abbrev condition : String → String → String → Time → DriverCondition
condition status reason message transition = record {
  type = "Ready";
  status = status;
  reason = reason;
  message = message;
  last_transition_time = transition;
}

unfoldable pub condition_of_state : String → Time → DriverCondition
unfolding one_of
condition_of_state state transition =
    if one_of state (
      "launching" ∷ "Pending" ∷ "Provisioning" ∷ "Starting" ∷ "Scheduling" ∷ "Scheduled"
      ∷ "WaitingForVolumeBinding" ∷ [])
    then condition "False" "Provisioning" "VMI is pending" transition
    else if state == "Running"
    then condition "True" "Running" "VMI is running" transition
    else if state == "Succeeded"
    then condition "False" "Completed" "VMI completed; VM resource remains authoritative" transition
    else if state == "Failed"
    then condition "False" "Failed" "VMI failed; VM resource remains authoritative" transition
    else if state == "Stopped"
    then condition "False" "Stopped" "VM is stopped" transition
    else if state == "Paused"
    then condition "False" "Paused" "VM is paused" transition
    else if one_of state (
        "Error" ∷ "CrashLoopBackOff" ∷ "ErrorUnschedulable" ∷ "ErrImagePull" ∷ "ImagePullBackOff"
        ∷ "ErrorPvcNotFound" ∷ "DataVolumeError" ∷ [])
    then condition "False" "Failed" "VM cannot become ready" transition
    else if one_of state ("stopping" ∷ "Stopping" ∷ [])
    then condition "False" "Stopping" "VMI is stopping" transition
    else if one_of state ("deleting" ∷ "Terminating" ∷ [])
    then condition "False" "Terminating" "VMI is being deleted" transition
    else if one_of state ("Migrating" ∷ "WaitingForReceiver" ∷ [])
    then condition "False" "Transitioning" "VM is transitioning between hosts" transition
    else if state == "Unknown"
    then condition "Unknown" "Unknown" "VMI state is unknown" transition
    else condition "Unknown" "Unknown" (concat "unknown VMI state: " state) transition

unfoldable pub sandbox_status : String → String → String → Time → DriverSandboxStatus
sandbox_status name vm_name state transition = record {
  sandbox_name = name;
  instance_id = vm_name;
  agent_fd = "";
  sandbox_fd = "";
  conditions = condition_of_state state transition ∷ [];
  deleting = false;
}

unfoldable pub is_terminal_state : String → Bool
is_terminal_state state = state == "Deleted"

unfoldable pub record_from_instance : VmInstance → Time → Record
record_from_instance i now = record {
  sandbox_id = i.sandbox_id;
  name = i.name;
  namespace = i.namespace;
  workspace = i.workspace;
  instance_id = i.vm_name;
  state = i.state;
  created_at = i.created_at;
  missing_polls = 0;
  spec = none;
  last_status = some (sandbox_status i.name i.vm_name i.state now);
  lease = 0;
}

unfoldable pub instance_to_driver_sandbox : VmInstance → Time → DriverSandbox
instance_to_driver_sandbox i now = to_driver_sandbox (record_from_instance i now)

abbrev says : Code → String → Status
says code text = record { code = code; message = literal text }

unfoldable pub provider_error : Failure → Status
provider_error f =
    if f.err_canceled || f.ctx_canceled
    then says canceled "operation canceled"
    else if f.err_deadline || f.ctx_deadline
    then says deadline_exceeded "provider operation timed out"
    else if f.is_unauthorized || f.is_forbidden
    then says permission_denied "Kubernetes denied the KubeVirt operation"
    else if f.is_too_many_requests || f.is_timeout || f.is_server_timeout
        || f.is_service_unavailable
    then says unavailable "Kubernetes API temporarily throttled the operation"
    else if f.is_not_found
    then says not_found "KubeVirt resource not found"
    else if f.is_already_exists || f.is_conflict
    then says aborted "KubeVirt resource changed concurrently"
    else if f.is_invalid
    then says failed_precondition "KubeVirt rejected the requested resource policy"
    else says unavailable "KubeVirt operation failed"

-- A call of the provider: a failure becomes the status that `providerError` gives it.
abbrev pub request : {S A : Type 0} → (World S → Result Failure A × World S) → Exec S A
request call w = let (result, w') = call w in lift provider_error result w'
