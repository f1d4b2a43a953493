-- ===== src/Tests/ServerTests.antt =====
-- The gRPC server over a machine that has no files, and a service that a signal stops.
use openshell_drivers_contri.Prelude.{
  ℕ, suc, ◌≤◌, ◌≡◌, ◌↔◌, ◌≢◌, refl, true, false, Option, none, List, [], ◌∷◌, ◌==◌,
}
use openshell_drivers_contri.Prelude.Int.{pos}
use openshell_drivers_contri.Prelude.Result.{ok}
use openshell_drivers_contri.Server.Options.{Options, with_defaults, or_default}
use openshell_drivers_contri.Server.Limit.{
  Limiter, idle, capacity, arrive, finish, Reachable, started, later, admitted,
}
use openshell_drivers_contri.Server.Bounded.{Reachable-limits}
use openshell_drivers_contri.Server.Listen.{
  FileInfo, System, listen, listen_path, opened_unix, permitted, close_and_remove,
}
use openshell_drivers_contri.Server.Local.{IsLocal, listen-IsLocal}
use openshell_drivers_contri.Server.Run.{
  Failure, Stop, Service, run, served, after_initialize, run_error, unless_canceled,
  is_cancellation,
}
use openshell_drivers_contri.Server.Outcomes.{Served, run-none}

abbrev single : Options
single = record {
  socket_path = "/run/driver.sock";
  bind_address = "";
  insecure_gateway_transport = false;
  shutdown_timeout = pos 0;
  max_recv_msg_size = pos 0;
  max_concurrent_rpcs = pos 1;
}

abbrev busy : Limiter
busy = record { sem = 1; handling = 7 ∷ [] }

busy-Reachable : Reachable single busy
unfolding arrive capacity with_defaults or_default idle
busy-Reachable = later started (admitted 7 refl)

Reachable-limits_example :
    (1 ≤ capacity single)
    × (1 ≤ capacity single)
    × ((arrive single 8 busy ≡ none) ↔ (1 ≡ capacity single))
    × ((rest : List ℕ) → busy.handling ≢ [] → finish rest busy ≢ none)
Reachable-limits_example = Reachable-limits single busy 8 busy-Reachable

-- A listener is the number of calls that were made before it was opened.
abbrev machine : System ℕ ℕ
machine = record {
  split_host = ok;
  is_loopback = λ host. host == "127.0.0.1";
  listen_tcp = λ _ n. (ok n, suc n);
  lstat = λ _ _. FileInfo.socket;
  remove = λ _ n. (none, suc n);
  listen_unix = λ _ n. (ok n, suc n);
  chmod_600 = λ _ n. (none, suc n);
  close = λ _ n. suc n;
}

listen-IsLocal_example : IsLocal machine single 1 0 3
unfolding listen listen_path opened_unix permitted
listen-IsLocal_example =
    listen-IsLocal machine single 0 3 1 (close_and_remove machine "/run/driver.sock" 1) refl

abbrev interrupted : Service ℕ ℕ
interrupted = record {
  initialize = λ n. (none, suc n);
  serve = λ _ _ n.
      (Stop.context_done (record { is_canceled = true; is_server_stopped = false }), true, suc n);
}

run-none_example :
    (ready : ℕ) × (◌≡◌ {A = Option Failure × ℕ} (none, 1) (none, ready))
    × Served machine interrupted (with_defaults single) ready 7
unfolding run served after_initialize run_error unless_canceled is_cancellation listen listen_path
    opened_unix permitted close_and_remove with_defaults or_default
run-none_example = run-none machine interrupted single 0 7 refl
