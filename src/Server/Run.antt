-- ===== src/Server/Run.antt =====
-- `Run` of pkg/server/server.go: the initial reconciliation, the listener, what ends the service, and
-- what the process makes of it. Serving, with the workers and their graceful stop, is a call of gRPC.
use openshell_drivers_contri.Prelude.{Bool, false, not, Option, none, some, if◌then◌else◌}
use openshell_drivers_contri.Prelude.Result.{ok, err}
use openshell_drivers_contri.Server.Options.{Options, with_defaults}
use openshell_drivers_contri.Server.Listen.{ListenError, System, Listening, listen}

-- An error, with what errors.Is says of context.Canceled and of grpc.ErrServerStopped.
pub record Failure : Type 0 where
  pub is_canceled : Bool
  pub is_server_stopped : Bool

-- What the select over the three channels receives: the cause of the context's end, or what the server
-- or the watcher returned; a watcher that panics returns an error.
pub data Stop : Type 0 where
  context_done : Failure → Stop
  serve_ended watch_ended : Option Failure → Stop

pub data RunError : Type 0 where
  not_initialized not_served cause watcher_failed : Failure → RunError
  not_listening : ListenError → RunError
  server_exited watcher_exited : RunError

-- `runErr`; `done` is whether the context has ended by then.
unfoldable pub run_error : Bool → Stop → Option RunError
run_error done (context_done e) = some (cause e)
run_error done (serve_ended none) = if not done then some server_exited else none
run_error done (serve_ended (some e)) =
    if not e.is_server_stopped
    then some (not_served e)
    else if not done
    then some server_exited
    else none
run_error done (watch_ended none) = if not done then some watcher_exited else none
run_error done (watch_ended (some e)) = if not done then some (watcher_failed e) else none

-- errors.Is(runErr, context.Canceled)
unfoldable pub is_cancellation : RunError → Bool
is_cancellation (not_initialized e) = e.is_canceled
is_cancellation (not_served e) = e.is_canceled
is_cancellation (cause e) = e.is_canceled
is_cancellation (watcher_failed e) = e.is_canceled
is_cancellation (not_listening e) = false
is_cancellation server_exited = false
is_cancellation watcher_exited = false

unfoldable pub unless_canceled : Option RunError → Option RunError
unfolding is_cancellation
unless_canceled none = none
unless_canceled (some e) = if is_cancellation e then none else some e

-- The driver's Initialize, where it has one, and the service up to the end of the graceful stop: what
-- ended it, and whether the context had ended then.
pub record Service (S L : Type 0) : Type 0 where
  pub initialize : S → Option Failure × S
  pub serve : Options → L → S → Stop × Bool × S

module _ {S L : Type 0} (sys : System S L) (service : Service S L) where
  -- The service, and the deferred cleanup of the listener.
  unfoldable pub served : Options → Listening sys → Option RunError × S
  unfolding run_error unless_canceled
  served opts (err e, s) = (some (not_listening e), s)
  served opts (ok (lis, cleanup), s) =
      let (stop, done, s') = service.serve opts lis s in
      (unless_canceled (run_error done stop), cleanup s')

  unfoldable pub after_initialize : Options → Option Failure × S → Option RunError × S
  unfolding served
  after_initialize opts (some e, s) = (some (not_initialized e), s)
  after_initialize opts (none, s) = served opts (listen sys opts s)

  unfoldable pub run : Options → S → Option RunError × S
  unfolding after_initialize
  run opts s = after_initialize (with_defaults opts) (service.initialize s)
