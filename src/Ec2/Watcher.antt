-- ===== src/Ec2/Watcher.antt =====
-- `StartWatcher` of drivers/ec2/watcher.go: the loop around `poll`, at the ticks of a timer.
use openshell_drivers_contri.Prelude.{ℕ, ◌+◌, ◌*◌, List, [], ◌∷◌, if◌then◌else◌}
use openshell_drivers_contri.Prelude.Int.{ℤ, pos, ltb_ℤ}
use openshell_drivers_contri.Prelude.Result.{Result, ok, err}
use openshell_drivers_contri.Safeguards.Records.{second}
use openshell_drivers_contri.Service.{World}
use openshell_drivers_contri.Ec2.Config.{Config}
use openshell_drivers_contri.Ec2.Observe.{PollError}
use openshell_drivers_contri.Ec2.Provider.{Provider}
use openshell_drivers_contri.Ec2.Poll.{poll}

-- The time that one poll may take.
unfoldable pub poll_timeout : ℤ → ℤ
poll_timeout interval = if ltb_ℤ interval (pos (5 * second)) then pos (5 * second) else interval

-- What ends the wait of a round.
pub data Wake : Type 0 where
  context_done ticked : Wake

-- consecutiveFailures after a poll, which is only logged
abbrev pub after_poll : {S : Type 0} → ℕ → Result PollError (Unit {0}) × World S → ℕ × World S
after_poll failures (ok _, w) = (0, w)
after_poll failures (err e, w) = (failures + 1, w)

-- The loop, up to the end of the context or of the events: a poll that fails ends nothing.
module _ {S : Type 0} (provider : Provider S) (config : Config) where
  unfoldable pub start_watcher : List Wake → ℕ → World S → ℕ × World S
  start_watcher [] failures w = (failures, w)
  start_watcher (context_done ∷ events) failures w = (failures, w)
  start_watcher (ticked ∷ events) failures w =
      let (failures', w') = after_poll failures (poll provider config w) in
      start_watcher events failures' w'
