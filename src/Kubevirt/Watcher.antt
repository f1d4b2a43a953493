-- ===== src/Kubevirt/Watcher.antt =====
-- `StartWatcher` of drivers/kubevirt/watcher.go: the loop around `poll`, and how long it waits after one
-- that failed. A duration is an int64; the product wraps around at 64 bits.
use openshell_drivers_contri.Prelude.{
  ℕ, suc, ◌+◌, ◌-◌, ◌*◌, ◌/◌, ◌%◌, ◌^◌, min, List, [], ◌∷◌, ltb, leb, if◌then◌else◌,
}
use openshell_drivers_contri.Prelude.Int.{ℤ, pos, negsuc, leb_ℤ, ltb_ℤ}
use openshell_drivers_contri.Prelude.Result.{ok, err}
use openshell_drivers_contri.Safeguards.Records.{second, minute}
use openshell_drivers_contri.Service.{World}
use openshell_drivers_contri.Kubevirt.Config.{Config}
use openshell_drivers_contri.Kubevirt.Provider.{VmProvider}
use openshell_drivers_contri.Kubevirt.Poll.{Outcome, poll}

-- The int64 of the low 64 bits.
unfoldable pub signed64 : ℕ → ℤ
signed64 n = let low = n % 2 ^ 64 in if ltb low (2 ^ 63) then pos low else negsuc (2 ^ 64 - 1 - low)

-- A duration, which the configuration keeps positive, times a number.
unfoldable pub times : ℤ → ℕ → ℤ
unfolding signed64
times (pos n) k = signed64 (n * k)
times (negsuc n) k = signed64 ((2 ^ 64 - suc n) * k)

abbrev pub min_ℤ : ℤ → ℤ → ℤ
min_ℤ a b = if leb_ℤ a b then a else b

-- min(d.config.PollInterval*time.Duration(1<<min(consecutiveFailures, 6)), time.Minute)
unfoldable pub backoff : ℤ → ℕ → ℤ
unfolding times
backoff interval failures = min_ℤ (times interval (2 ^ min failures 6)) (pos minute)

-- max(int64(delay/4), 1)
unfoldable pub jitter_bound : ℤ → ℕ
jitter_bound (pos n) = if leb 1 (n / 4) then n / 4 else 1
jitter_bound (negsuc n) = 1

unfoldable pub later_by : ℤ → ℕ → ℤ
later_by (pos n) j = pos (n + j)
later_by (negsuc n) j = if leb j n then negsuc (n - j) else pos (j - suc n)

-- The delay before the next poll after failures in a row; `rand` is rand.Int64N.
unfoldable pub retry_delay : (ℕ → ℕ) → ℤ → ℕ → ℤ
unfolding backoff jitter_bound later_by
retry_delay rand interval failures =
    let delay = backoff interval failures in later_by delay (rand (jitter_bound delay))

-- The time that one poll may take.
unfoldable pub poll_timeout : ℤ → ℤ
poll_timeout interval = if ltb_ℤ interval (pos (5 * second)) then pos (5 * second) else interval

pub record Watching : Type 0 where
  pub consecutive_failures : ℕ
  pub delay : ℤ

unfoldable pub begin : Config → Watching
begin config = record { consecutive_failures = 0; delay = config.poll_interval }

-- What ends the wait: the context is done, or the timer fires; then `rand` is what rand.Int64N returns
-- in that round.
pub data Wake : Type 0 where
  context_done : Wake
  timer_fired : (ℕ → ℕ) → Wake

module _ {S : Type 0} (provider : VmProvider S) (config : Config) where
  -- What a poll that ended leaves, with the delay for which the timer is reset.
  unfoldable pub after_poll : (ℕ → ℕ) → Watching → Outcome S → Watching × World S
  unfolding retry_delay
  after_poll rand s (ok _, w) =
      (record { consecutive_failures = 0; delay = config.poll_interval }, w)
  after_poll rand s (err e, w) =
      let failures = s.consecutive_failures + 1 in
      (
        record {
          consecutive_failures = failures;
          delay = retry_delay rand config.poll_interval failures;
        },
        w,
      )

  -- The loop, up to the end of the context or of the events.
  unfoldable pub start_watcher : List Wake → Watching → World S → Watching × World S
  unfolding after_poll
  start_watcher [] s w = (s, w)
  start_watcher (context_done ∷ events) s w = (s, w)
  start_watcher (timer_fired rand ∷ events) s w =
      let (s', w') = after_poll rand s (poll provider config w) in start_watcher events s' w'
