-- ===== src/Bootstrap/Render.antt =====
-- `RenderSecurityBlock` of pkg/bootstrap/transport.go: the files, and their text.
use Prim.Native.String.{◌++◌ as concat}
use openshell_drivers_contri.Prelude.{
  ℕ, ◌≡◌, arith, String, some, none, not, ◌&&◌, List, [], ◌∷◌, ◌++◌, map, ◌==◌, if◌then◌else◌,
}
use openshell_drivers_contri.Prelude.Result.{Result, ok, err, ◌>>◌}
use openshell_drivers_contri.Text.{has_control, cut_suffix}
use openshell_drivers_contri.Bootstrap.Config.{Bytes, TransportConfig, SecurityBlockParams}
use openshell_drivers_contri.Bootstrap.Library.{Library}
use openshell_drivers_contri.Bootstrap.Transport.{TransportError, validate}

abbrev pub tls_ca_path : String
tls_ca_path = "/etc/openshell/tls/client/ca.crt"

abbrev pub tls_cert_path : String
tls_cert_path = "/etc/openshell/tls/client/tls.crt"

abbrev pub tls_key_path : String
tls_key_path = "/etc/openshell/tls/client/tls.key"

abbrev pub sandbox_token_path : String
sandbox_token_path = "/etc/openshell/auth/sandbox.jwt"

abbrev pub environment_path : String
environment_path = "/etc/openshell/supervisor.env"

pub data RenderError : Type 0 where
  bad_transport : TransportError → RenderError
  is_required has_control_character : String → RenderError

-- Why `RenderUserData` of drivers/ec2/userdata.go or `RenderCloudInit` of
-- drivers/kubevirt/cloudinit.go fails.
pub data UserDataError : Type 0 where
  no_expiry : UserDataError
  bad_block : RenderError → UserDataError
  is_too_large : ℕ → UserDataError

unfoldable pub block_or_error : Result RenderError String → Result UserDataError String
block_or_error (ok block) = ok block
block_or_error (err e) = err (bad_block e)

pub block_or_error-ok :
    (r : Result RenderError String) (block : String) → block_or_error r ≡ ok block → r ≡ ok block
unfolding block_or_error
block_or_error-ok (ok b) block h = ground arith
block_or_error-ok (err e) block h = cc

-- A Go string made from text, or from bytes.
pub data Content : Type 0 where
  text : String → Content
  raw : Bytes → Content

pub record File : Type 0 where
  pub path : String
  pub content : Content
  pub permissions : String

-- One round of the loop over the parameters, which the source keeps in a map: where several are
-- bad, the error is that of one of them.
unfoldable pub check_value : String → String → Result RenderError (Unit {0})
unfolding has_control
check_value name value =
    if value == "" && not (name == "log level")
    then err (is_required name)
    else if has_control value
    then err (has_control_character name)
    else ok tt

unfoldable pub check_params : SecurityBlockParams → Result RenderError (Unit {0})
unfolding check_value
check_params p = do
  check_value "sandbox ID" p.sandbox_id
  check_value "sandbox token" p.sandbox_token
  check_value "log level" p.log_level
  check_value "max lifetime" p.max_lifetime

-- strings.Join(lines, "\n") + "\n", of one line or more
unfoldable pub join_lines : List String → String
join_lines [] = ""
join_lines (line ∷ lines) = concat line (concat "\n" (join_lines lines))

unfoldable pub as_render_error : Result TransportError (Unit {0}) → Result RenderError (Unit {0})
as_render_error (ok _) = ok tt
as_render_error (err e) = err (bad_transport e)

module _ (lib : Library) where
  open lib use {quote, base64_text, base64_bytes}

  abbrev assign : String → String → String
  assign name value = concat name (concat "=" (quote value))

  unfoldable pub env : TransportConfig → SecurityBlockParams → List String
  env c p =
      assign "OPENSHELL_SANDBOX_ID" p.sandbox_id
      ∷ assign "OPENSHELL_SANDBOX_TOKEN_FILE" sandbox_token_path
      ∷ assign "OPENSHELL_GATEWAY_ENDPOINT" c.gateway_endpoint
      ∷ assign "OPENSHELL_ENDPOINT" c.gateway_endpoint
      ∷ assign "OPENSHELL_LOG_LEVEL" p.log_level
      ∷ assign "HTTP_PROXY" c.gateway_endpoint
      ∷ assign "HTTPS_PROXY" c.gateway_endpoint
      ∷ []

  unfoldable pub tls_env : List String
  tls_env =
      assign "OPENSHELL_TLS_CA" tls_ca_path
      ∷ assign "OPENSHELL_TLS_CERT" tls_cert_path
      ∷ assign "OPENSHELL_TLS_KEY" tls_key_path
      ∷ []

  abbrev file : String → Content → String → File
  file path content permissions = record {
    path = path;
    content = content;
    permissions = permissions;
  }

  unfoldable pub files : TransportConfig → SecurityBlockParams → List File
  unfolding env tls_env join_lines
  files c p =
      let token_file = file sandbox_token_path (text (concat p.sandbox_token "\n")) "0600" in
      if not c.insecure
      then file environment_path (text (join_lines (env c p ++ tls_env))) "0600"
        ∷ token_file
        ∷ file tls_ca_path (raw c.ca_cert_pem) "0644"
        ∷ file tls_cert_path (raw c.client_cert_pem) "0600"
        ∷ file tls_key_path (raw c.client_key_pem) "0600"
        ∷ []
      else file environment_path (text (join_lines (env c p))) "0600" ∷ token_file ∷ []

  base64 : Content → String
  base64 (text s) = base64_text s
  base64 (raw bytes) = base64_bytes bytes

  render_file : File → String
  unfolding base64
  render_file f = concat "  - path: " (
      concat f.path (
        concat "\n    encoding: b64\n    content: " (
          concat (base64 f.content)
            (concat "\n    owner: root:root\n    permissions: '" (concat f.permissions "'\n\n")))))

  concat_all : List String → String
  concat_all [] = ""
  concat_all (s ∷ ss) = concat s (concat_all ss)

  -- strings.TrimSuffix(text, "\n")
  trim_newline : String → String
  trim_newline s = elim (cut_suffix "\n" s) [ some cut ↦ cut | none ↦ s ]

  unfoldable pub render_security_block :
      TransportConfig → SecurityBlockParams → Result RenderError String
  unfolding as_render_error check_params render_file concat_all trim_newline
  render_security_block c p = do
    as_render_error (validate lib c)
    check_params p
    ok (trim_newline (concat_all (map render_file (files c p))))
