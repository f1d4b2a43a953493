-- ===== src/Kubevirt/Catalog.antt =====
-- drivers/kubevirt/instancetype.go
use openshell_drivers_contri.Prelude.{
  ℕ, ◌*◌, ◌≡◌, refl, String, false, Option, none, some, List, [], ◌∷◌, arith, ◌==◌, if◌then◌else◌,
  subst, All, inl, inr,
}
use openshell_drivers_contri.Prelude.Result.{Result, ok, err, ◌>>=◌, Result-cases}
use openshell_drivers_contri.Proto.Messages.{DriverResourceRequirements}
use openshell_drivers_contri.Quantity.Floats.{Floats}
use openshell_drivers_contri.Sizing.Laws.{
  Has, Has-All, Choice, parsed, unparsed_cpu, unparsed_memory, choose-Choice,
}
use openshell_drivers_contri.Sizing.Select.{
  InstanceSpec, Error, no_instance_type, Sorter, choose, asks_nothing,
}

abbrev of_size : String → ℕ → ℕ → InstanceSpec
of_size name vcpus gib = record { name = name; vcpus = vcpus; memory_mib = gib * 1024 }

unfoldable pub instance_types : List InstanceSpec
instance_types =
    of_size "cx1.medium" 1 2
    ∷ of_size "cx1.large" 2 4
    ∷ of_size "cx1.xlarge" 4 8
    ∷ of_size "cx1.2xlarge" 8 16
    ∷ of_size "cx1.4xlarge" 16 32
    ∷ of_size "cx1.8xlarge" 32 64
    ∷ of_size "d1.micro" 1 1
    ∷ of_size "d1.small" 1 2
    ∷ of_size "d1.medium" 1 4
    ∷ of_size "d1.large" 2 8
    ∷ of_size "d1.xlarge" 4 16
    ∷ of_size "d1.2xlarge" 8 32
    ∷ of_size "d1.4xlarge" 16 64
    ∷ of_size "d1.8xlarge" 32 128
    ∷ []

-- The default type, if there is one.
unfoldable pub or_none : String → Result Error String
or_none default_type = if default_type == "" then err no_instance_type else ok default_type

module _ (fl : Floats) (sorter : Sorter) where
  unfoldable pub select_instance_type :
      Option DriverResourceRequirements → String → Result Error String
  unfolding asks_nothing or_none
  select_instance_type none default_type = or_none default_type
  select_instance_type (some r) default_type =
      if asks_nothing r
      then or_none default_type
      else (do inst ← choose fl sorter instance_types r; ok inst.name)

abbrev IsNamed : InstanceSpec → Type 0
IsNamed t = (t.name == "") ≡ false

instance_types-IsNamed : All IsNamed instance_types
unfolding instance_types
instance_types-IsNamed = (
  refl,
  (
    refl,
    (
      refl,
      (refl, (refl, (refl, (refl, (refl, (refl, (refl, (refl, (refl, (refl, (refl, tt))))))))))),
    ),
  ),
)

module _ (fl : Floats) (sorter : Sorter) where
  Choice-IsNamed :
      (r : DriverResourceRequirements) (t : InstanceSpec) (result : Result Error InstanceSpec)
      → result ≡ ok t
      → Choice fl instance_types r result
      → IsNamed t
  Choice-IsNamed r t _ h (unparsed_cpu e p) = absurd (cc)
  Choice-IsNamed r t _ h (unparsed_memory e cpu p q) = absurd (cc)
  Choice-IsNamed r t _ h (parsed cpu mem p q (err e) chosen) = absurd (cc)
  Choice-IsNamed r t _ h (parsed cpu mem p q (ok t') chosen) =
      Has-All IsNamed t instance_types (subst (λ x. Has x instance_types) (same h) chosen.0)
        instance_types-IsNamed
    where
      same : ◌≡◌ {A = Result Error InstanceSpec} (ok t') (ok t) → t' ≡ t
      same e = cc

  -- Whatever is asked for, the type that is chosen has a name.
  pub select_instance_type-IsNamed :
      (resources : Option DriverResourceRequirements) (default_type name : String)
      → select_instance_type fl sorter resources default_type ≡ ok name
      → (name == "") ≡ false
  unfolding select_instance_type or_none
  select_instance_type-IsNamed none default_type name h = ground (arith, h)
  select_instance_type-IsNamed (some r) default_type name h =
      elim (Result-cases (choose fl sorter instance_types r)) [
        | inr (e, p) ↦ ground (arith, p, h)
        | inl (t, p) ↦
            (let named = Choice-IsNamed r t _ p (choose-Choice fl sorter instance_types r) in
              ground (arith, p, h, named))
      ]
