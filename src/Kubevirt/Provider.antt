-- ===== src/Kubevirt/Provider.antt =====
-- The provider boundary of drivers/kubevirt/provider.go. As for EC2, a call may change the world in every
-- way, since other goroutines run while it waits.
use openshell_drivers_contri.Prelude.{String, Bool, List}
use openshell_drivers_contri.Prelude.Result.{Result}
use openshell_drivers_contri.Safeguards.Records.{Time}
use openshell_drivers_contri.Service.{World}

pub record VmSpec : Type 0 where
  pub sandbox_id : String
  pub name : String
  pub sandbox_namespace : String
  pub workspace : String
  pub gateway_id : String
  pub instance_type : String
  pub boot_source : String
  pub boot_source_namespace : String
  pub preference : String
  pub storage_class : String
  pub cloud_init : String
  pub resource_key : String
  pub request_digest : String
  pub disk_size : String
  pub storage_labels : List (String × String)
  pub storage_annotations : List (String × String)
  pub created_at : Time
  pub max_lifetime : String

pub record VmFilter : Type 0 where
  pub gateway_id : String
  pub sandbox_id : String
  pub name : String

pub record VmInstance : Type 0 where
  pub vm_name : String
  pub sandbox_id : String
  pub name : String
  pub namespace : String
  pub workspace : String
  pub state : String
  pub vmi_phase : String
  pub ip : String
  pub created_at : Time

-- What `providerError` asks of an error and of the context: `errors.Is` for both, and then the tests
-- of Kubernetes' apierrors.
pub record Failure : Type 0 where
  pub err_canceled : Bool
  pub ctx_canceled : Bool
  pub err_deadline : Bool
  pub ctx_deadline : Bool
  pub is_unauthorized : Bool
  pub is_forbidden : Bool
  pub is_too_many_requests : Bool
  pub is_timeout : Bool
  pub is_server_timeout : Bool
  pub is_service_unavailable : Bool
  pub is_not_found : Bool
  pub is_already_exists : Bool
  pub is_conflict : Bool
  pub is_invalid : Bool

pub record VmProvider (S : Type 0) : Type 0 where
  pub check_ready : World S → Result Failure (Unit {0}) × World S
  pub launch : VmSpec → World S → Result Failure VmInstance × World S
  pub list : VmFilter → World S → Result Failure (List VmInstance) × World S
  pub stop : String → World S → Result Failure (Unit {0}) × World S
  pub terminate : String → World S → Result Failure (Unit {0}) × World S
