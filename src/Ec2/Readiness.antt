-- ===== src/Ec2/Readiness.antt =====
-- The condition that drivers/ec2/driver.go gives a state.
use openshell_drivers_contri.Prelude.{
  String, ◌≡◌, ◌↔◌, refl, arith, ◌==◌, eq_iff, Bool-cases, inl, inr, false,
}
use openshell_drivers_contri.Safeguards.Records.{Time}
use openshell_drivers_contri.Ec2.Conditions.{condition_of_state}

-- The condition is true in the running state and in no other.
pub condition_of_state-running :
    (state : String) (transition : Time)
    → ((condition_of_state state transition).status ≡ "True") ↔ (state ≡ "running")
unfolding condition_of_state
condition_of_state-running state transition = (
  λ h. elim (Bool-cases (state == "running")) [
    | inl running ↦ (eq_iff state "running").0 running
    | inr other ↦ absurd (not_running h other)
  ],
  λ e. rw e refl,
)
  where
    not_running :
        (condition_of_state state transition).status ≡ "True" → (state == "running") ≡ false → ⊥
    not_running h other = ground (arith, eq_iff "False" "True", eq_iff "Unknown" "True")
