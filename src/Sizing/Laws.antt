-- ===== src/Sizing/Laws.antt =====
-- `SelectInstanceType` picks a type of the catalog that meets the demand and than which no other such
-- type is smaller.
use mathlib.Core.List.{Permᴰ}
use openshell_drivers_contri.Prelude.{
  String, ◌≡◌, refl, sym, ap, subst, ◌∙◌, ◌⊎◌, inl, inr, true, false, List, [], ◌∷◌, ◌++◌, arith,
  All, All-map, ◌==◌, ◌<◌, ◌↔◌, eqb, eqb_iff, ltb→lt, Bool-cases,
}
use openshell_drivers_contri.Prelude.Result.{Result, ok, err, Result-cases}
use openshell_drivers_contri.Proto.Messages.{DriverResourceRequirements}
use openshell_drivers_contri.Quantity.Floats.{Floats, FloatOrder}
use openshell_drivers_contri.Quantity.Parse as Parse
use openshell_drivers_contri.Quantity.Parse.{parse_cpu, parse_memory, check, validate_requirements}
use openshell_drivers_contri.Sizing.Select.{
  InstanceSpec, Error, no_instance_type, bad_quantity, less, Ascending, Sorter, demand, fits,
  first_fit, choose,
}

-- A list has the element.
abbrev pub Has : InstanceSpec → List InstanceSpec → Type 0
Has t [] = ⊥
Has t (x ∷ xs) = (x ≡ t) ⊎ Has t xs

pub Has-All :
    (P : InstanceSpec → Type 0) (t : InstanceSpec) (xs : List InstanceSpec)
    → Has t xs
    → All P xs
    → P t
Has-All P t [] x h = absurd x
Has-All P t (x ∷ xs) (inl e) h = subst P e h.0
Has-All P t (x ∷ xs) (inr later) h = Has-All P t xs later h.1

module _ {ℓ} (P : InstanceSpec → Type ℓ) where
  All-Permᴰ : (xs ys : List InstanceSpec) → Permᴰ xs ys → All P ys → All P xs
  All-Permᴰ _ _ Permᴰ.nil h = tt
  All-Permᴰ _ _ (Permᴰ.cons {l₁ = xs} {l₂ = ys} e p) h =
      (subst P (sym e) h.0, All-Permᴰ xs ys p h.1)
  All-Permᴰ _ _ (Permᴰ.swap e e') h = (subst P (sym e) h.1.0, (subst P (sym e') h.0, h.1.1))
  All-Permᴰ _ _ (Permᴰ.trans {l₁ = xs} {l₂ = ys} {l₃ = zs} p q) h =
      All-Permᴰ xs ys p (All-Permᴰ ys zs q h)

Has-Permᴰ : (t : InstanceSpec) (xs ys : List InstanceSpec) → Permᴰ xs ys → Has t ys → Has t xs
Has-Permᴰ t _ _ Permᴰ.nil h = h
Has-Permᴰ t _ _ (Permᴰ.cons {l₁ = xs} {l₂ = ys} e p) (inl h) = inl (cc)
Has-Permᴰ t _ _ (Permᴰ.cons {l₁ = xs} {l₂ = ys} e p) (inr h) = inr (Has-Permᴰ t xs ys p h)
Has-Permᴰ t _ _ (Permᴰ.swap e e') (inl h) = inr (inl (cc))
Has-Permᴰ t _ _ (Permᴰ.swap e e') (inr (inl h)) = inl (cc)
Has-Permᴰ t _ _ (Permᴰ.swap e e') (inr (inr h)) = inr (inr h)
Has-Permᴰ t _ _ (Permᴰ.trans {l₁ = xs} {l₂ = ys} {l₃ = zs} p q) h =
    Has-Permᴰ t xs ys p (Has-Permᴰ t ys zs q h)

pub nil_parts {ℓ} :
    {A : Type ℓ} (ws xs ys zs : List A)
    → ws ++ xs ++ (ys ++ zs) ≡ []
    → (ws ≡ []) × (xs ≡ []) × (ys ≡ []) × (zs ≡ [])
nil_parts [] [] [] zs h = (refl, refl, refl, h)
nil_parts [] [] (y ∷ ys) zs h = cc
nil_parts [] (x ∷ xs) ys zs h = cc
nil_parts (w ∷ ws) xs ys zs h = cc

less_irrefl : (t : InstanceSpec) → less t t ≡ false
unfolding less
less_irrefl t = ground arith

-- Fewer vCPUs, or as many and less memory.
abbrev pub IsSmaller : InstanceSpec → InstanceSpec → Type 0
IsSmaller a b = (a.vcpus < b.vcpus) ⊎ ((a.vcpus ≡ b.vcpus) × (a.memory_mib < b.memory_mib))

less_iff : (a b : InstanceSpec) → (less a b ≡ true) ↔ IsSmaller a b
unfolding less
less_iff a b = (to, from)
  where
    to : less a b ≡ true → IsSmaller a b
    to h = elim (Bool-cases (eqb a.vcpus b.vcpus)) [
      | inl same ↦ inr ((eqb_iff a.vcpus b.vcpus).0 same, ltb→lt _ _ (rw same at h))
      | inr other ↦ inl (ltb→lt _ _ (rw other at h))
    ]

    from : IsSmaller a b → less a b ≡ true
    from (inl fewer) = ground arith
    from (inr (same, less_memory)) = ground arith

module _ (fl : Floats) where
  open fl use {Float, le, ratio, is_nan, max}

  -- No type of the list that meets the demand is below `t`.
  abbrev pub IsSmallest : Float → Float → InstanceSpec → List InstanceSpec → Type 0
  IsSmallest cpu mem t = All (λ y. fits fl cpu mem y ≡ true → less y t ≡ false)

  -- What a choice from a list comes to.
  abbrev pub Chosen : Float → Float → List InstanceSpec → Result Error InstanceSpec → Type 0
  Chosen cpu mem xs (ok t) = Has t xs × (fits fl cpu mem t ≡ true) × IsSmallest cpu mem t xs
  Chosen cpu mem xs (err e) = (e ≡ no_instance_type) × All (λ y. fits fl cpu mem y ≡ false) xs

  module _ (cpu mem : Float) where
    skip-Chosen :
        (x : InstanceSpec) (xs : List InstanceSpec) (r : Result Error InstanceSpec)
        → fits fl cpu mem x ≡ false
        → Chosen cpu mem xs r
        → Chosen cpu mem (x ∷ xs) r
    skip-Chosen x xs (ok t) misfit (has, fit, smallest) =
        (inr has, fit, (λ h. absurd (cc), smallest))
    skip-Chosen x xs (err e) misfit (which, none_fits) = (which, (misfit, none_fits))

    pub first_fit-Chosen :
        (xs : List InstanceSpec) → Ascending xs → Chosen cpu mem xs (first_fit fl cpu mem xs)
    unfolding first_fit
    first_fit-Chosen [] _ = (refl, tt)
    first_fit-Chosen (x ∷ xs) ascending = elim (Bool-cases (fits fl cpu mem x)) [
      | inl yes_fits ↦
          rw yes_fits
            (inl refl, yes_fits, (λ _. less_irrefl x, All-map _ xs (λ y h _. h) ascending.0))
      | inr no_fit ↦
          rw no_fit
            (skip-Chosen x xs (first_fit fl cpu mem xs) no_fit (first_fit-Chosen xs ascending.1))
    ]

    pub Chosen-Permᴰ :
        (xs ys : List InstanceSpec) (r : Result Error InstanceSpec)
        → Permᴰ xs ys
        → Chosen cpu mem ys r
        → Chosen cpu mem xs r
    Chosen-Permᴰ xs ys (ok t) p (has, fit, smallest) =
        (Has-Permᴰ t xs ys p has, fit, All-Permᴰ _ xs ys p smallest)
    Chosen-Permᴰ xs ys (err e) p (which, none_fits) = (which, All-Permᴰ _ xs ys p none_fits)

  -- Its vCPUs and its memory, each as a float, are at least the demand.
  abbrev pub Meets : Float → Float → InstanceSpec → Type 0
  Meets cpu mem t = (le cpu (ratio t.vcpus 1) ≡ true) × (le mem (ratio t.memory_mib 1) ≡ true)

  fits_iff : (cpu mem : Float) (t : InstanceSpec) → (fits fl cpu mem t ≡ true) ↔ Meets cpu mem t
  unfolding fits
  fits_iff cpu mem t = ((λ h. (ground (arith, h), ground (arith, h))), (λ h. ground (arith, h)))

  -- A type of the catalog that meets the demand, such that no other which meets it is smaller; or
  -- no type where none meets it.
  abbrev pub Selected : Float → Float → List InstanceSpec → Result Error InstanceSpec → Type 0
  Selected cpu mem xs (ok t) =
      Has t xs × Meets cpu mem t × All (λ y. Meets cpu mem y → ¬ IsSmaller y t) xs
  Selected cpu mem xs (err e) = (e ≡ no_instance_type) × All (λ y. ¬ Meets cpu mem y) xs

  Chosen-Selected :
      (cpu mem : Float) (xs : List InstanceSpec) (r : Result Error InstanceSpec)
      → Chosen cpu mem xs r
      → Selected cpu mem xs r
  Chosen-Selected cpu mem xs (ok t) (has, fit, smallest) = (
    has,
    (fits_iff cpu mem t).0 fit,
    All-map _ xs
        (λ y h meets smaller.
          let above = h ((fits_iff cpu mem y).1 meets) in
          let below = (less_iff y t).1 smaller in cc)
        smallest,
  )
  Chosen-Selected cpu mem xs (err e) (which, none_fits) = (
    which,
    All-map _ xs (λ y misfit meets. let fit = (fits_iff cpu mem y).1 meets in cc) none_fits,
  )

  -- What `choose` comes to: an error of the first quantity that does not parse, or a choice for
  -- the demand of the requests and limits.
  pub data Choice (catalog : List InstanceSpec) (r : DriverResourceRequirements)
      : Result Error InstanceSpec → Type 0 where
    unparsed_cpu :
        (e : Parse.Error)
        → demand fl (parse_cpu fl) r.cpu_request r.cpu_limit ≡ err (bad_quantity e)
        → Choice catalog r (err (bad_quantity e))
    unparsed_memory :
        (e : Parse.Error) (cpu : Float)
        → demand fl (parse_cpu fl) r.cpu_request r.cpu_limit ≡ ok cpu
        → demand fl (parse_memory fl) r.memory_request r.memory_limit ≡ err (bad_quantity e)
        → Choice catalog r (err (bad_quantity e))
    parsed :
        (cpu mem : Float)
        → demand fl (parse_cpu fl) r.cpu_request r.cpu_limit ≡ ok cpu
        → demand fl (parse_memory fl) r.memory_request r.memory_limit ≡ ok mem
        → (result : Result Error InstanceSpec) → Selected cpu mem catalog result
        → Choice catalog r result

  demand-err :
      (parse : String → Result Parse.Error Float) (request limit : String) (e : Error)
      → demand fl parse request limit ≡ err e
      → (q : Parse.Error) × (e ≡ bad_quantity q)
  unfolding demand
  demand-err parse request limit e h = ground arith

  pub choose-parsed :
      (sorter : Sorter) (catalog : List InstanceSpec) (r : DriverResourceRequirements)
      (cpu mem : Float)
      → demand fl (parse_cpu fl) r.cpu_request r.cpu_limit ≡ ok cpu
      → demand fl (parse_memory fl) r.memory_request r.memory_limit ≡ ok mem
      → choose fl sorter catalog r ≡ first_fit fl cpu mem (sorter.sort_slice catalog)
  unfolding choose
  choose-parsed sorter catalog r cpu mem p q = rw (p, q)

  -- The choice fails with a quantity's error only where a demand does not parse. Else the chosen
  -- type is one of the catalog, its vCPUs and its memory are at least the demand, and no other one of
  -- which that is so has fewer vCPUs, or as many and less memory; where none is chosen, that is so of
  -- none of the catalog.
  pub choose-Choice :
      (sorter : Sorter) (catalog : List InstanceSpec) (r : DriverResourceRequirements)
      → Choice catalog r (choose fl sorter catalog r)
  choose-Choice sorter catalog r =
      elim (Result-cases (demand fl (parse_cpu fl) r.cpu_request r.cpu_limit)) [
        | inr (e, p) ↦
            (let (q, same) = demand-err (parse_cpu fl) r.cpu_request r.cpu_limit e p in
              unfold choose in rw (p, same) (unparsed_cpu q (p ∙ ap err same)))
        | inl (cpu, p) ↦
            elim (Result-cases (demand fl (parse_memory fl) r.memory_request r.memory_limit)) [
              | inr (e, p') ↦
                  (let (q, same) =
                      demand-err (parse_memory fl) r.memory_request r.memory_limit e p' in
                    unfold choose in rw (p, p', same) (unparsed_memory q cpu p (p' ∙ ap err same)))
              | inl (mem, p') ↦ rw (choose-parsed sorter catalog r cpu mem p p') (
                  parsed cpu mem p p' _ (
                    Chosen-Selected cpu mem catalog _ (
                      Chosen-Permᴰ cpu mem catalog (sorter.sort_slice catalog) _
                        (sorter.permuted catalog)
                        (first_fit-Chosen cpu mem (sorter.sort_slice catalog)
                          (sorter.sorted catalog)))))
            ]
      ]

  -- A capacity that is at least the demand is at least the request and the limit, each if it is
  -- given, where the parser yields no NaN.
  pub demand-Covers :
      FloatOrder fl
      → (parse : String → Result Parse.Error Float) (request limit : String) (d v c : Float)
      → ((s : String) (x : Float) → parse s ≡ ok x → is_nan x ≡ false)
      → demand fl parse request limit ≡ ok d
      → le d c ≡ true
      → (((request == "") ≡ false) × (parse request ≡ ok v))
        ⊎ (((limit == "") ≡ false) × (parse limit ≡ ok v))
      → le v c ≡ true
  unfolding demand
  demand-Covers order parse request limit d v c numbers h fit given =
      elim (Result-cases (parse request)) [
        | inl (a, p) ↦ elim (Result-cases (parse limit)) [
          | inl (b, q) ↦ ground (
            arith,
            numbers request a p,
            numbers limit b q,
            order.le_of_max a b c,
            order.le_of_max fl.zero_float b c,
            order.zero_is_number,
          )
          | inr (e, q) ↦ ground (arith, numbers request a p)
        ]
        | inr (e, p) ↦ elim (Result-cases (parse limit)) [
          | inl (b, q) ↦
              ground
                (arith, numbers limit b q, order.le_of_max fl.zero_float b c, order.zero_is_number)
          | inr (e', q) ↦ ground arith
        ]
      ]

  check-demand_fails :
      (parse : String → Result Parse.Error Float) (field field' : Parse.Field)
      (request limit : String) (e : Error)
      → check fl parse field request ≡ []
      → check fl parse field' limit ≡ []
      → ¬ (demand fl parse request limit ≡ err e)
  unfolding check demand
  check-demand_fails parse field field' request limit e h h' p = ground arith

  check-demand :
      (parse : String → Result Parse.Error Float) (field field' : Parse.Field)
      (request limit : String)
      → check fl parse field request ≡ []
      → check fl parse field' limit ≡ []
      → (d : Float) × (demand fl parse request limit ≡ ok d)
  check-demand parse field field' request limit h h' =
      elim (Result-cases (demand fl parse request limit)) [
        | inl found ↦ found
        | inr (e, p) ↦ absurd (check-demand_fails parse field field' request limit e h h' p)
      ]

  -- Requirements that were validated never make the choice fail by a quantity.
  pub validated-choose :
      (sorter : Sorter) (catalog : List InstanceSpec) (r : DriverResourceRequirements) (e : Error)
      → validate_requirements fl r.cpu_request r.cpu_limit r.memory_request r.memory_limit ≡ []
      → choose fl sorter catalog r ≡ err e
      → e ≡ no_instance_type
  unfolding validate_requirements
  validated-choose sorter catalog r e valid h =
      let (c₁, c₂, m₁, m₂) = nil_parts _ _ _ _ valid in
      let (cpu, p) = check-demand (parse_cpu fl) _ _ r.cpu_request r.cpu_limit c₁ c₂ in
      let (mem, q) = check-demand (parse_memory fl) _ _ r.memory_request r.memory_limit m₁ m₂ in
      ground (
        arith,
        choose-parsed sorter catalog r cpu mem p q,
        first_fit-Chosen cpu mem (sorter.sort_slice catalog) (sorter.sorted catalog),
      )
