-- ===== src/Server/Options.antt =====
-- `Options` of pkg/server/server.go, and the defaults with which `Run` fills them.
use openshell_drivers_contri.Prelude.{◌*◌, ◌^◌, String, Bool, if◌then◌else◌}
use openshell_drivers_contri.Prelude.Int.{ℤ, pos, leb_ℤ}
use openshell_drivers_contri.Safeguards.Records.{second}

pub record Options : Type 0 where
  pub socket_path : String
  pub bind_address : String
  pub insecure_gateway_transport : Bool
  pub shutdown_timeout : ℤ
  pub max_recv_msg_size : ℤ
  pub max_concurrent_rpcs : ℤ

unfoldable pub or_default : ℤ → ℤ → ℤ
or_default n default = if leb_ℤ n (pos 0) then default else n

unfoldable pub with_defaults : Options → Options
unfolding or_default
with_defaults opts = record opts {
  shutdown_timeout = or_default opts.shutdown_timeout (pos (5 * second));
  max_recv_msg_size = or_default opts.max_recv_msg_size (pos (2 ^ 20));
  max_concurrent_rpcs = or_default opts.max_concurrent_rpcs (pos 32);
}
