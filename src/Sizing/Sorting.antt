-- ===== src/Sizing/Sorting.antt =====
-- The choice from a catalog in which every two types differ in the order: `sort.Slice` leaves only one
-- order then.
use openshell_drivers_contri.Prelude.{
  ◌≡◌, refl, sym, ap, subst, ◌∙◌, Bool, true, false, ◌&&◌, ◌||◌, List, [], ◌∷◌, arith, inl, inr,
}
use openshell_drivers_contri.Prelude.Result.{Result, ok, err, Result-cases}
use openshell_drivers_contri.Proto.Messages.{DriverResourceRequirements}
use openshell_drivers_contri.Quantity.Floats.{Floats}
use openshell_drivers_contri.Quantity.Parse.{parse_cpu, parse_memory}
use openshell_drivers_contri.Sizing.Select.{
  InstanceSpec, Error, Sorter, less, fits, demand, first_fit, choose,
}
use openshell_drivers_contri.Sizing.Laws.{
  Has, Has-All, Chosen, Chosen-Permᴰ, first_fit-Chosen, choose-parsed,
}

differs_from_all : InstanceSpec → List InstanceSpec → Bool
differs_from_all x [] = true
differs_from_all x (y ∷ ys) = (less x y || less y x) && differs_from_all x ys

-- Every two types of the list differ in the order.
unfoldable pub all_differ : List InstanceSpec → Bool
unfolding differs_from_all
all_differ [] = true
all_differ (x ∷ xs) = differs_from_all x xs && all_differ xs

differs_from_all-Has :
    (x y : InstanceSpec) (ys : List InstanceSpec)
    → differs_from_all x ys ≡ true
    → Has y ys
    → (less x y || less y x) ≡ true
unfolding differs_from_all
differs_from_all-Has x y [] h has = absurd has
differs_from_all-Has x y (z ∷ ys) h (inl e) =
    subst (λ y. (less x y || less y x) ≡ true) e (ground arith)
differs_from_all-Has x y (z ∷ ys) h (inr later) = differs_from_all-Has x y ys (ground arith) later

-- Two types of such a list that are equal in the order are the same.
same_of_all_differ :
    (t u : InstanceSpec) (xs : List InstanceSpec)
    → all_differ xs ≡ true
    → Has t xs
    → Has u xs
    → less t u ≡ false
    → less u t ≡ false
    → t ≡ u
unfolding all_differ
same_of_all_differ t u [] h has has' tu ut = absurd has
same_of_all_differ t u (x ∷ xs) h (inl e) (inl e') tu ut = sym e ∙ e'
same_of_all_differ t u (x ∷ xs) h (inl e) (inr later) tu ut =
    (let differs = differs_from_all-Has x u xs (ground arith) later in
      absurd (clash (subst (λ t. (less t u || less u t) ≡ true) e differs)))
  where
    clash : (less t u || less u t) ≡ true → ⊥
    clash d = ground arith
same_of_all_differ t u (x ∷ xs) h (inr later) (inl e) tu ut =
    (let differs = differs_from_all-Has x t xs (ground arith) later in
      absurd (clash (subst (λ u. (less u t || less t u) ≡ true) e differs)))
  where
    clash : (less u t || less t u) ≡ true → ⊥
    clash d = ground arith
same_of_all_differ t u (x ∷ xs) h (inr later) (inr later') tu ut =
    same_of_all_differ t u xs (ground arith) later later' tu ut

module _ (fl : Floats) where
  open fl use {Float}

  Chosen-unique :
      (cpu mem : Float) (xs : List InstanceSpec) (r r' : Result Error InstanceSpec)
      → all_differ xs ≡ true
      → Chosen fl cpu mem xs r
      → Chosen fl cpu mem xs r'
      → r ≡ r'
  Chosen-unique cpu mem xs (ok t) (ok u) h (has, fit, smallest) (has', fit', smallest') = ap ok (
      same_of_all_differ t u xs h has has'
        (Has-All (λ y. fits fl cpu mem y ≡ true → less y u ≡ false) t xs has smallest' fit)
        (Has-All (λ y. fits fl cpu mem y ≡ true → less y t ≡ false) u xs has' smallest fit'))
  Chosen-unique cpu mem xs (ok t) (err e) h (has, fit, smallest) (which, none_fits) =
      (let unfit = Has-All (λ y. fits fl cpu mem y ≡ false) t xs has none_fits in absurd (cc))
  Chosen-unique cpu mem xs (err e) (ok u) h (which, none_fits) (has, fit, smallest) =
      (let unfit = Has-All (λ y. fits fl cpu mem y ≡ false) u xs has none_fits in absurd (cc))
  Chosen-unique cpu mem xs (err e) (err e') h (which, _) (which', _) = ap err (which ∙ sym which')

  first_fit-sorter :
      (sorter sorter' : Sorter) (cpu mem : Float) (catalog : List InstanceSpec)
      → all_differ catalog ≡ true
      → first_fit fl cpu mem (sorter.sort_slice catalog)
        ≡ first_fit fl cpu mem (sorter'.sort_slice catalog)
  first_fit-sorter sorter sorter' cpu mem catalog h =
      Chosen-unique cpu mem catalog _ _ h (chosen sorter) (chosen sorter')
    where
      chosen :
          (s : Sorter) → Chosen fl cpu mem catalog (first_fit fl cpu mem (s.sort_slice catalog))
      chosen s =
          Chosen-Permᴰ fl cpu mem catalog (s.sort_slice catalog) _ (s.permuted catalog)
            (first_fit-Chosen fl cpu mem (s.sort_slice catalog) (s.sorted catalog))

  pub choose-sorter :
      (sorter sorter' : Sorter) (catalog : List InstanceSpec) (r : DriverResourceRequirements)
      → all_differ catalog ≡ true
      → choose fl sorter catalog r ≡ choose fl sorter' catalog r
  choose-sorter sorter sorter' catalog r h =
      elim (Result-cases (demand fl (parse_cpu fl) r.cpu_request r.cpu_limit)) [
        | inr (e, p) ↦ (unfold choose in rw p refl)
        | inl (cpu, p) ↦
            elim (Result-cases (demand fl (parse_memory fl) r.memory_request r.memory_limit)) [
              | inr (e, q) ↦ (unfold choose in rw (p, q) refl)
              | inl (mem, q) ↦
                  choose-parsed fl sorter catalog r cpu mem p q
                  ∙ first_fit-sorter sorter sorter' cpu mem catalog h
                  ∙ sym (choose-parsed fl sorter' catalog r cpu mem p q)
            ]
      ]
