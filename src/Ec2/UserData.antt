-- ===== src/Ec2/UserData.antt =====
-- `RenderUserData` of drivers/ec2/userdata.go.
use Prim.Native.String.{◌++◌ as concat, len}
use openshell_drivers_contri.Prelude.{ℕ, ◌*◌, ◌≤◌, ◌≡◌, String, arith, ltb, if◌then◌else◌}
use openshell_drivers_contri.Prelude.Result.{Result, ok, err, ◌>>=◌, bind-ok}
use openshell_drivers_contri.Bootstrap.Config.{TransportConfig, SecurityBlockParams}
use openshell_drivers_contri.Bootstrap.Library.{Library}
use openshell_drivers_contri.Bootstrap.Render.{
  UserDataError, is_too_large, block_or_error, block_or_error-ok, render_security_block,
}

abbrev pub max_ec2_user_data_size : ℕ
max_ec2_user_data_size = 16 * 1024

pub record UserDataParams : Type 0 where
  pub transport : TransportConfig
  pub sandbox_id : String
  pub sandbox_token : String
  pub log_level : String
  pub max_lifetime : String

-- cloudInitTemplate with its two fields filled in. That the constant text parses as a template, and
-- that its execution into a buffer never fails, is not modelled.
unfoldable pub cloud_init : String → String → String
cloud_init security_block max_lifetime = concat "#cloud-config\nwrite_files:\n" (
    concat security_block (
      concat
        "\n\n  - path: /etc/systemd/system/openshell-self-destruct.timer\n    content: |\n      [Unit]\n      Description=Terminate instance after max lifetime\n      [Timer]\n      OnBootSec="
        (concat max_lifetime
          "\n      Unit=openshell-self-destruct.service\n      [Install]\n      WantedBy=timers.target\n    owner: root:root\n    permissions: '0644'\n\n  - path: /etc/systemd/system/openshell-self-destruct.service\n    content: |\n      [Unit]\n      Description=Self-terminate EC2 instance (max lifetime exceeded)\n      [Service]\n      Type=oneshot\n      ExecStart=/usr/sbin/shutdown -h now \"openshell: max instance lifetime reached\"\n    owner: root:root\n    permissions: '0644'\n\nruncmd:\n  - systemctl daemon-reload\n  - systemctl enable --now openshell-self-destruct.timer\n  - systemctl enable --now openshell-supervisor.service\n")))

unfoldable pub params_of : UserDataParams → SecurityBlockParams
params_of p = record {
  sandbox_id = p.sandbox_id;
  sandbox_token = p.sandbox_token;
  log_level = p.log_level;
  max_lifetime = p.max_lifetime;
}

module _ (lib : Library) where
  open lib use {base64_text}

  abbrev encode : String → Result UserDataError String
  encode text =
      if ltb max_ec2_user_data_size (len text)
      then err (is_too_large (len text))
      else ok (base64_text text)

  unfoldable pub render_user_data : UserDataParams → Result UserDataError String
  unfolding params_of
  render_user_data p = do
    block ← block_or_error (render_security_block lib p.transport (params_of p))
    encode (cloud_init block p.max_lifetime)

  -- User data that is rendered encodes the template around the security block, and is within the
  -- limit of EC2 before it is encoded.
  pub render_user_data-le :
      (p : UserDataParams) (encoded : String)
      → render_user_data p ≡ ok encoded
      → (block : String) × (render_security_block lib p.transport (params_of p) ≡ ok block)
        × (len (cloud_init block p.max_lifetime) ≤ max_ec2_user_data_size)
        × (encoded ≡ base64_text (cloud_init block p.max_lifetime))
  unfolding render_user_data
  render_user_data-le p encoded h =
      let (block, rendered, h₁) =
        bind-ok (block_or_error (render_security_block lib p.transport (params_of p))) _ encoded
          h in
      (
        block,
        block_or_error-ok (render_security_block lib p.transport (params_of p)) block rendered,
        fits block h₁,
        same block h₁,
      )
    where
      fits :
          (block : String)
          → encode (cloud_init block p.max_lifetime) ≡ ok encoded
          → len (cloud_init block p.max_lifetime) ≤ max_ec2_user_data_size
      fits block e = ground arith

      same :
          (block : String)
          → encode (cloud_init block p.max_lifetime) ≡ ok encoded
          → encoded ≡ base64_text (cloud_init block p.max_lifetime)
      same block e = ground arith
