-- ===== src/Ec2/Validate.antt =====
-- `validateSandbox` and `validateText` of drivers/ec2/driver.go.
use Prim.Native.String.{len}
use openshell_drivers_contri.Prelude.{
  ℕ, ◌*◌, String, Bool, true, false, ◌&&◌, ◌||◌, Option, none, some, List, [], ◌∷◌, ltb, ◌==◌,
  if◌then◌else◌,
}
use openshell_drivers_contri.Prelude.Result.{Result, ok, err, ◌>>◌}
use openshell_drivers_contri.Proto.Messages.{
  DriverSandbox, DriverSandboxSpec, DriverSandboxTemplate, DriverResourceRequirements,
  GpuResourceRequirements,
}
use openshell_drivers_contri.Proto.Getters.{get_gpu, get_count}
use openshell_drivers_contri.Text.{has_control}
use openshell_drivers_contri.Quantity.Floats.{Floats}
use openshell_drivers_contri.Quantity.Parse.{validate_requirements}
use openshell_drivers_contri.Quantity.Parse as Parse
use openshell_drivers_contri.Service.{
  Invalid, sandbox_required, spec_required, template_required, gpu_unsupported, required, exceeds,
  has_control_character, unsupported_log_level, bad_requirements,
}

abbrev Check : Type 0
Check = Result Invalid (Unit {0})

unfoldable pub validate_text : String → String → Bool → ℕ → Check
unfolding has_control
validate_text name value is_required max =
    if is_required && value == ""
    then err (required name)
    else if ltb max (len value)
    then err (exceeds name max)
    else if has_control value
    then err (has_control_character name)
    else ok tt

unfoldable pub validate_log_level : String → Check
validate_log_level level =
    if level == ""
      || (level == "debug" || (level == "info" || (level == "warn" || level == "error")))
    then ok tt
    else err (unsupported_log_level level)

unfoldable pub validate_gpu : Option GpuResourceRequirements → Check
validate_gpu none = ok tt
validate_gpu (some gpu) = if ltb 0 (get_count (some gpu)) then err gpu_unsupported else ok tt

unfoldable pub of_errors : List (Parse.Field × Parse.Error) → Check
of_errors [] = ok tt
of_errors (e ∷ es) = err (bad_requirements (e ∷ es))

module _ (fl : Floats) where
  unfoldable pub validate_resources : Option DriverResourceRequirements → Check
  unfolding of_errors
  validate_resources none = ok tt
  validate_resources (some r) =
      of_errors (validate_requirements fl r.cpu_request r.cpu_limit r.memory_request r.memory_limit)

  unfoldable pub validate_template : DriverSandboxSpec → Option DriverSandboxTemplate → Check
  unfolding validate_gpu
  validate_template spec none = err template_required
  validate_template spec (some template) = do
    validate_text "sandbox token" spec.sandbox_token false (16 * 1024)
    validate_log_level spec.log_level
    validate_gpu (get_gpu spec.resource_requirements)
    validate_resources template.resources

  unfoldable pub validate_spec : Option DriverSandboxSpec → Check
  validate_spec none = err spec_required
  validate_spec (some spec) = validate_template spec spec.template

  unfoldable pub validate_sandbox : Option DriverSandbox → Check
  validate_sandbox none = err sandbox_required
  validate_sandbox (some sb) = do
    validate_text "sandbox ID" sb.id true 256
    validate_text "sandbox name" sb.name true 246
    validate_text "namespace" sb.namespace false 256
    validate_text "workspace" sb.workspace false 256
    validate_spec sb.spec
