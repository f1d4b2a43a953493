-- ===== src/Tests/BootstrapTests.antt =====
-- The bootstrap data at concrete transports.
use openshell_drivers_contri.Prelude.{◌≡◌, refl, String, false, ◌==◌}
use openshell_drivers_contri.Prelude.Result.{ok}
use openshell_drivers_contri.Text.{has_control, cut_suffix}
use openshell_drivers_contri.Bootstrap.Transport.{
  validate, validate_url, validate_certificates, refuse_if, port_is_bad, want_scheme, parse_chain,
  is_empty, or_error,
}
use openshell_drivers_contri.Bootstrap.Load.{
  load_transport_config, read_required_file, read_result, all_or_errors, validated, as_load_error,
}
use openshell_drivers_contri.Bootstrap.Loaded.{IsLoaded, load_transport_config-IsLoaded}
use openshell_drivers_contri.Bootstrap.Safety.{IsSafe, validate-IsSafe}
use openshell_drivers_contri.Bootstrap.Render.{
  render_security_block, check_params, check_value, as_render_error, files, env, tls_env,
  join_lines,
}
use openshell_drivers_contri.Bootstrap.Files.{other_files, files-token, render_security_block-ok}
use openshell_drivers_contri.Tests.Transports.{
  toy_library, secure_transport, plain_transport, block_params,
}

validate-IsSafe_example : IsSafe toy_library secure_transport
unfolding validate validate_url validate_certificates refuse_if port_is_bad want_scheme parse_chain
    is_empty or_error
validate-IsSafe_example = validate-IsSafe toy_library secure_transport refl

load_transport_config-IsLoaded_example :
    (validate toy_library secure_transport ≡ ok tt)
    × (secure_transport.insecure ≡ false)
    × IsLoaded toy_library "ca" "cert" "key" secure_transport
unfolding load_transport_config read_required_file read_result all_or_errors validated as_load_error
    validate validate_url validate_certificates refuse_if port_is_bad want_scheme parse_chain
    is_empty or_error
load_transport_config-IsLoaded_example =
    load_transport_config-IsLoaded toy_library "https://gateway:8443" "ca" "cert" "key" false
      secure_transport refl

files-token_example :
    other_files
      (files toy_library plain_transport (record block_params { sandbox_token = "other" }))
    ≡ other_files (files toy_library plain_transport block_params)
files-token_example = files-token toy_library plain_transport block_params "other"

abbrev rendered : String
rendered = elim (render_security_block toy_library plain_transport block_params) [
  | ok s ↦ s
  | _ ↦ ""
]

render_security_block-ok_example :
    (validate toy_library plain_transport ≡ ok tt)
    × ((("box" == "") ≡ false) × (has_control "box" ≡ false))
    × ((("secret" == "") ≡ false) × (has_control "secret" ≡ false))
    × ((("8h" == "") ≡ false) × (has_control "8h" ≡ false))
unfolding render_security_block check_params check_value as_render_error files env tls_env
    join_lines validate validate_url refuse_if port_is_bad want_scheme or_error has_control
    cut_suffix
render_security_block-ok_example =
    render_security_block-ok toy_library plain_transport block_params rendered refl
