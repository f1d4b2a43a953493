-- ===== src/Ec2/Recovery.antt =====
-- The records that `poll` of drivers/ec2/watcher.go makes of instances that it does not know.
use openshell_drivers_contri.Prelude.{ℕ, ◌+◌, ◌^◌, ◌<◌, ◌≤◌, ◌≡◌, true, false, arith, ◌==◌}
use openshell_drivers_contri.Prelude.Int.{pos}
use openshell_drivers_contri.Safeguards.Records.{second}
use openshell_drivers_contri.Safeguards.Registry.{is_expired}
use openshell_drivers_contri.Ec2.Config.{Config}
use openshell_drivers_contri.Ec2.Provider.{Instance}
use openshell_drivers_contri.Ec2.Conditions.{record_from_instance}
use openshell_drivers_contri.Ec2.Observe.{untrusted, recovered_record}

-- An instance that is not terminated and whose creation time cannot be trusted is expired as soon as
-- it is recovered, for a configured age that a time.Duration holds and a clock that has passed it.
pub recovered_record-untrusted :
    (config : Config) (now age : ℕ) (i : Instance)
    → config.max_instance_age ≡ pos age
    → age + second + 1 ≤ now
    → age + second < 2 ^ 63
    → (i.state == "terminated") ≡ false
    → untrusted now i.created_at ≡ true
    → is_expired age now (recovered_record config now i) ≡ true
unfolding recovered_record is_expired record_from_instance
recovered_record-untrusted config now age i positive late small live h =
    rw (h, positive, live) (ground arith)
