-- ===== src/Proto/Getters.antt =====
-- The getters of gen/computepb/compute_driver.pb.go: on a nil message they return the zero value.
use openshell_drivers_contri.Prelude.{ℕ, String, Option, none, some}
use openshell_drivers_contri.Proto.Messages.{
  GpuResourceRequirements, ResourceRequirements, DriverResourceRequirements, DriverSandboxTemplate,
  DriverSandboxSpec, DriverSandbox,
}

abbrev pub get_spec : Option DriverSandbox → Option DriverSandboxSpec
get_spec none = none
get_spec (some x) = x.spec

abbrev pub get_id : Option DriverSandbox → String
get_id none = ""
get_id (some x) = x.id

abbrev pub get_name : Option DriverSandbox → String
get_name none = ""
get_name (some x) = x.name

abbrev pub get_namespace : Option DriverSandbox → String
get_namespace none = ""
get_namespace (some x) = x.namespace

abbrev pub get_workspace : Option DriverSandbox → String
get_workspace none = ""
get_workspace (some x) = x.workspace

abbrev pub get_log_level : Option DriverSandboxSpec → String
get_log_level none = ""
get_log_level (some x) = x.log_level

abbrev pub get_sandbox_token : Option DriverSandboxSpec → String
get_sandbox_token none = ""
get_sandbox_token (some x) = x.sandbox_token

abbrev pub get_template : Option DriverSandboxSpec → Option DriverSandboxTemplate
get_template none = none
get_template (some x) = x.template

abbrev pub get_resource_requirements : Option DriverSandboxSpec → Option ResourceRequirements
get_resource_requirements none = none
get_resource_requirements (some x) = x.resource_requirements

abbrev pub get_gpu : Option ResourceRequirements → Option GpuResourceRequirements
get_gpu none = none
get_gpu (some x) = x.gpu

abbrev or_zero : Option ℕ → ℕ
or_zero none = 0
or_zero (some n) = n

abbrev pub get_count : Option GpuResourceRequirements → ℕ
get_count none = 0
get_count (some x) = or_zero x.count

abbrev pub get_resources : Option DriverSandboxTemplate → Option DriverResourceRequirements
get_resources none = none
get_resources (some x) = x.resources
