-- ===== src/Server/Outcomes.antt =====
-- When `Run` of pkg/server/server.go ends without an error.
use openshell_drivers_contri.Prelude.{
  ◌≡◌, refl, Bool, true, false, not, ◌⊎◌, inl, inr, Option, none, some, if◌then◌else◌, Bool-cases,
  ap, sym,
}
use openshell_drivers_contri.Prelude.Result.{ok, err}
use openshell_drivers_contri.Server.Options.{Options, with_defaults}
use openshell_drivers_contri.Server.Listen.{System, Listening, listen}
use openshell_drivers_contri.Server.Run.{
  Failure, Stop, context_done, serve_ended, watch_ended, RunError, run_error, is_cancellation,
  unless_canceled, Service, served, after_initialize, run,
}

-- The error that a stop comes with is a cancellation.
abbrev pub IsCanceled : Stop → Type 0
IsCanceled (context_done e) = e.is_canceled ≡ true
IsCanceled (serve_ended none) = ⊥
IsCanceled (serve_ended (some e)) = e.is_canceled ≡ true
IsCanceled (watch_ended none) = ⊥
IsCanceled (watch_ended (some e)) = e.is_canceled ≡ true

unless_canceled-cancels :
    (e : RunError) → unless_canceled (some e) ≡ none → is_cancellation e ≡ true
unfolding unless_canceled
unless_canceled-cancels e h = elim (Bool-cases (is_cancellation e)) [
  | inl canceled ↦ canceled
  | inr other ↦ (let kept : some e ≡ none = rw other at h in absurd cc)
]

not_served-none :
    (b : Bool) (e : Failure)
    → unless_canceled (if b then some (RunError.not_served e) else some RunError.server_exited)
      ≡ none
    → e.is_canceled ≡ true
unfolding is_cancellation
not_served-none true e h = unless_canceled-cancels (RunError.not_served e) h
not_served-none false e h = absurd (let x = unless_canceled-cancels RunError.server_exited h in cc)

-- The stops that are no failure: a cancellation, or an end of the server or the watcher that is as
-- expected, since the context has ended.
run_error-none :
    (done : Bool) (stop : Stop)
    → unless_canceled (run_error done stop) ≡ none
    → (done ≡ true) ⊎ IsCanceled stop
unfolding run_error is_cancellation
run_error-none true stop h = inl refl
run_error-none false (context_done e) h = inr (unless_canceled-cancels (RunError.cause e) h)
run_error-none false (serve_ended none) h =
    absurd (let e = unless_canceled-cancels RunError.server_exited h in cc)
run_error-none false (serve_ended (some e)) h = inr (not_served-none (not e.is_server_stopped) e h)
run_error-none false (watch_ended none) h =
    absurd (let e = unless_canceled-cancels RunError.watcher_exited h in cc)
run_error-none false (watch_ended (some e)) h =
    inr (unless_canceled-cancels (RunError.watcher_failed e) h)

module _ {S L : Type 0} (sys : System S L) (service : Service S L) where
  -- A service that began, and ended without a failure.
  pub record Served (opts : Options) (s s' : S) : Type 0 where
    pub lis : L
    pub cleanup : S → S
    pub listening : S
    pub stop : Stop
    pub done : Bool
    pub stopped : S
    pub listens : listen sys opts s ≡ (ok (lis, cleanup), listening)
    pub serves : service.serve opts lis listening ≡ (stop, done, stopped)
    pub as_expected : (done ≡ true) ⊎ IsCanceled stop
    pub cleaned : s' ≡ cleanup stopped

  served-none :
      (opts : Options) (s s' : S) (r : Listening sys)
      → listen sys opts s ≡ r
      → served sys service opts r ≡ (none, s')
      → Served opts s s'
  unfolding served
  served-none opts s s' (err e, m) listens h = absurd cc
  served-none opts s s' (ok (lis, cleanup), m) listens h = record {
    lis = lis;
    cleanup = cleanup;
    listening = m;
    stop = (service.serve opts lis m).0;
    done = (service.serve opts lis m).1;
    stopped = (service.serve opts lis m).2;
    listens = listens;
    serves = refl;
    as_expected = run_error-none _ _ (ap (λ x. x.0) h);
    cleaned = sym (ap (λ x. x.1) h);
  }

  after_initialize-none :
      (opts : Options) (r : Option Failure × S) (s' : S)
      → after_initialize sys service opts r ≡ (none, s')
      → (s : S) × (r ≡ (none, s)) × Served opts s s'
  unfolding after_initialize
  after_initialize-none opts (none, s) s' h =
      (s, refl, served-none opts s s' (listen sys opts s) refl h)
  after_initialize-none opts (some e, s) s' h = absurd cc

  -- A run that ends without an error began with a reconciliation that succeeded, then listened, and
  -- served until its context ended or for a cancellation; and it cleaned its listener up last.
  pub run-none :
      (opts : Options) (s s' : S)
      → run sys service opts s ≡ (none, s')
      → (ready : S) × (service.initialize s ≡ (none, ready)) × Served (with_defaults opts) ready s'
  unfolding run
  run-none opts s s' h = after_initialize-none (with_defaults opts) (service.initialize s) s' h
