-- ===== src/Kubevirt/Keeping.antt =====
-- Which of several machines of one sandbox `poll` of drivers/kubevirt/watcher.go keeps.
use openshell_drivers_contri.Prelude.{
  ◌≡◌, refl, true, false, Option, none, some, List, [], ◌∷◌, All, Bool-cases, inl, inr, ◌⊎◌, ◌↔◌,
  eq_iff, ◌==◌,
}
use openshell_drivers_contri.Kubevirt.Provider.{VmInstance}
use openshell_drivers_contri.Kubevirt.Observe.{
  is_completed, behind, or_first, first_running, choose_keeper,
}
use mathlib.Core.List.{Permᴰ}

abbrev pub IsCompleted : VmInstance → Type 0
IsCompleted i = (i.state ≡ "Succeeded") ⊎ (i.state ≡ "Failed")

is_completed_iff : (i : VmInstance) → (is_completed i ≡ true) ↔ IsCompleted i
unfolding is_completed
is_completed_iff i = (to, from)
  where
    to : is_completed i ≡ true → IsCompleted i
    to h = elim (Bool-cases (i.state == "Succeeded")) [
      | inl succeeded ↦ inl ((eq_iff i.state "Succeeded").0 succeeded)
      | inr other ↦ inr ((eq_iff i.state "Failed").0 (rw other at h))
    ]

    from : IsCompleted i → is_completed i ≡ true
    from (inl succeeded) = rw succeeded refl
    from (inr failed) = rw failed refl

-- The machines, sorted into one that is kept and its duplicates.
abbrev pub IsSplit : List VmInstance → VmInstance × List VmInstance → Type 0
IsSplit is (keeper, duplicates) = Permᴰ is (keeper ∷ duplicates)

Permᴰ_refl : (xs : List VmInstance) → Permᴰ xs xs
Permᴰ_refl [] = Permᴰ.nil
Permᴰ_refl (x ∷ xs) = Permᴰ.cons refl (Permᴰ_refl xs)

-- What the search finds: a machine that is not completed, or that all are.
abbrev Found : List VmInstance → Option (VmInstance × List VmInstance) → Type 0
Found is none = All IsCompleted is
Found is (some (keeper, others)) = (is_completed keeper ≡ false) × IsSplit is (keeper, others)

first_running-Found : (is : List VmInstance) → Found is (first_running is)
unfolding first_running
first_running-Found [] = tt
first_running-Found (i ∷ is) = elim (Bool-cases (is_completed i)) [
  | inr running ↦ rw running (running, Permᴰ_refl (i ∷ is))
  | inl completed ↦
      rw completed (behind_found completed (first_running is) (first_running-Found is))
]
  where
    behind_found :
        is_completed i ≡ true
        → (found : Option (VmInstance × List VmInstance)) → Found is found
        → Found (i ∷ is) (elim found [ none ↦ none | some f ↦ some (behind i f) ])
    behind_found completed none all = ((is_completed_iff i).0 completed, all)
    behind_found completed (some (keeper, others)) (running, split) =
        (running, Permᴰ.trans (Permᴰ.cons refl split) (Permᴰ.swap refl refl))

-- Of the machines of one sandbox that the choice is given, the one that is kept and the duplicates are
-- together all; and one whose state is Succeeded or Failed is kept only if that is so of all of them.
pub choose_keeper-running :
    (i : VmInstance) (is : List VmInstance)
    → IsSplit (i ∷ is) (choose_keeper i is)
      × (IsCompleted (choose_keeper i is).0 → All IsCompleted (i ∷ is))
unfolding choose_keeper
choose_keeper-running i is = kept (first_running (i ∷ is)) (first_running-Found (i ∷ is))
  where
    kept :
        (found : Option (VmInstance × List VmInstance))
        → Found (i ∷ is) found
        → IsSplit (i ∷ is) (or_first i is found)
          × (IsCompleted (or_first i is found).0 → All IsCompleted (i ∷ is))
    kept none all = (Permᴰ_refl (i ∷ is), λ _. all)
    kept (some (keeper, others)) (running, split) =
        (split, λ h. absurd (let completed = (is_completed_iff keeper).1 h in cc))
