-- ===== src/Kubevirt/CloudInit.antt =====
-- `RenderCloudInit` of drivers/kubevirt/cloudinit.go.
use Prim.Native.String.{◌++◌ as concat, len}
use openshell_drivers_contri.Prelude.{ℕ, ◌*◌, ◌≡◌, String, ltb, eqb, if◌then◌else◌}
use openshell_drivers_contri.Prelude.Result.{Result, ok, err, ◌>>=◌}
use openshell_drivers_contri.Safeguards.Records.{Time}
use openshell_drivers_contri.Bootstrap.Config.{TransportConfig, SecurityBlockParams}
use openshell_drivers_contri.Bootstrap.Library.{Library}
use openshell_drivers_contri.Bootstrap.Render.{
  UserDataError, no_expiry, is_too_large, block_or_error, render_security_block,
}

abbrev pub max_kubevirt_cloud_init_size : ℕ
max_kubevirt_cloud_init_size = 900 * 1024

pub record CloudInitParams : Type 0 where
  pub transport : TransportConfig
  pub sandbox_id : String
  pub sandbox_token : String
  pub log_level : String
  pub max_lifetime : String
  pub expires_at : Time

-- cloudInitTemplate with its two fields filled in. That the constant text parses as a template, and
-- that its execution into a buffer never fails, is not modelled.
unfoldable pub cloud_init : String → String → String
cloud_init security_block expires_at = concat "#cloud-config\nwrite_files:\n" (
    concat security_block (
      concat
        "\n\n  - path: /etc/systemd/system/openshell-self-destruct.timer\n    content: |\n      [Unit]\n      Description=Terminate VM after max lifetime\n      [Timer]\n      OnCalendar="
        (concat expires_at
          "\n      Persistent=true\n      Unit=openshell-self-destruct.service\n      [Install]\n      WantedBy=timers.target\n    owner: root:root\n    permissions: '0644'\n\n  - path: /etc/systemd/system/openshell-self-destruct.service\n    content: |\n      [Unit]\n      Description=Self-terminate VM (max lifetime exceeded)\n      [Service]\n      Type=oneshot\n      ExecStart=/usr/sbin/shutdown -h now \"openshell: max instance lifetime reached\"\n    owner: root:root\n    permissions: '0644'\n\nruncmd:\n  - systemctl daemon-reload\n  - systemctl enable --now openshell-self-destruct.timer\n  - systemctl enable --now openshell-supervisor.service\n")))

unfoldable pub params_of : CloudInitParams → SecurityBlockParams
params_of p = record {
  sandbox_id = p.sandbox_id;
  sandbox_token = p.sandbox_token;
  log_level = p.log_level;
  max_lifetime = p.max_lifetime;
}

-- The text writes the files of the block, then a timer unit that elapses at the expiry, runs the
-- shutdown, and is enabled.
pub record IsTimed (rendered block expiry : String) : Type 0 where
  pub timer : String
  pub service : String
  pub between : String
  pub tail : String
  pub is :
      rendered
      ≡ concat "#cloud-config\nwrite_files:\n" (
          concat block (
            concat timer (
              concat "OnCalendar=" (
                concat expiry (
                  concat "\n" (
                    concat service (
                      concat "ExecStart=/usr/sbin/shutdown -h now" (
                        concat between (
                          concat "systemctl enable --now openshell-self-destruct.timer\n"
                            tail)))))))))

-- `calendar` is the UTC text of a time, to the second.
module _ (lib : Library) (calendar : Time → String) where
  abbrev within_limit : String → Result UserDataError String
  within_limit text =
      if ltb max_kubevirt_cloud_init_size (len text) then err (is_too_large (len text)) else ok text

  -- The zero time is 0.
  unfoldable pub render_cloud_init : CloudInitParams → Result UserDataError String
  unfolding params_of
  render_cloud_init p = if eqb p.expires_at 0 then err no_expiry else do
    block ← block_or_error (render_security_block lib p.transport (params_of p))
    within_limit (cloud_init block (calendar p.expires_at))
