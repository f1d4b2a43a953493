-- ===== src/Kubevirt/Validate.antt =====
-- `validateSandbox` of drivers/kubevirt/driver.go. Its `validateText` is that of drivers/ec2/driver.go,
-- word for word, and so are the checks before the last one, but for the name of the driver in the text
-- on GPUs.
use openshell_drivers_contri.Prelude.{
  ◌≡◌, refl, sym, subst, Bool, true, false, ◌||◌, Option, none, some, List, [], ◌∷◌, Option-cases,
  inl, inr, arith,
}
use openshell_drivers_contri.Prelude.Result.{Result, ok, err, ◌>>◌, then-ok}
use openshell_drivers_contri.Proto.Messages.{
  DriverSandbox, DriverSandboxSpec, DriverSandboxTemplate,
}
use openshell_drivers_contri.Quantity.Floats.{Floats}
use openshell_drivers_contri.Service.{
  Invalid, sandbox_required, spec_required, template_required, fields_unsupported,
}
use openshell_drivers_contri.Ec2.Validate.{validate_text}
use openshell_drivers_contri.Ec2.Validate as Ec2

-- len(m) != 0
unfoldable pub is_filled : {A : Type 0} → List A → Bool
is_filled [] = false
is_filled (x ∷ xs) = true

-- v != nil
unfoldable pub is_set : {A : Type 0} → Option A → Bool
is_set none = false
is_set (some a) = true

-- The fields that the driver does not support.
unfoldable pub unsupported_fields : DriverSandboxSpec → DriverSandboxTemplate → Bool
unfolding is_filled is_set
unsupported_fields spec template =
    is_filled spec.environment
    || is_filled template.environment
    || is_filled template.labels
    || is_set template.platform_config
    || is_set template.driver_config

refuse_fields : Bool → Result Invalid (Unit {0})
refuse_fields true = err fields_unsupported
refuse_fields false = ok tt

module _ (fl : Floats) where
  unfoldable pub validate_template :
      DriverSandboxSpec → Option DriverSandboxTemplate → Result Invalid (Unit {0})
  unfolding unsupported_fields refuse_fields
  validate_template spec none = err template_required
  validate_template spec (some template) = do
    Ec2.validate_template fl spec (some template)
    refuse_fields (unsupported_fields spec template)

  unfoldable pub validate_spec : Option DriverSandboxSpec → Result Invalid (Unit {0})
  validate_spec none = err spec_required
  validate_spec (some spec) = validate_template spec spec.template

  unfoldable pub validate_sandbox : Option DriverSandbox → Result Invalid (Unit {0})
  validate_sandbox none = err sandbox_required
  validate_sandbox (some sb) = do
    validate_text "sandbox ID" sb.id true 256
    validate_text "sandbox name" sb.name true 246
    validate_text "namespace" sb.namespace false 256
    validate_text "workspace" sb.workspace false 256
    validate_spec sb.spec

then-ok_back :
    {E : Type 0} (a b b' : Result E (Unit {0})) → (a >> b) ≡ ok tt → b' ≡ ok tt → (a >> b') ≡ ok tt
then-ok_back (ok u) b b' h h' = h'
then-ok_back (err e) b b' h h' = cc

-- The spec that a sandbox which is admitted has, without a field that the driver does not support.
pub record IsSupported (sb : DriverSandbox) : Type 0 where
  pub spec : DriverSandboxSpec
  pub template : DriverSandboxTemplate
  pub spec_given : sb.spec ≡ some spec
  pub template_given : spec.template ≡ some template
  pub no_environment : spec.environment ≡ []
  pub no_template_environment : template.environment ≡ []
  pub no_labels : template.labels ≡ []
  pub no_platform_config : template.platform_config ≡ none
  pub no_driver_config : template.driver_config ≡ none

is_filled-false : {A : Type 0} (xs : List A) → is_filled xs ≡ false → xs ≡ []
unfolding is_filled
is_filled-false [] h = refl
is_filled-false (x ∷ xs) h = cc

is_set-false : {A : Type 0} (o : Option A) → is_set o ≡ false → o ≡ none
unfolding is_set
is_set-false none h = refl
is_set-false (some a) h = cc

refuse_fields-false : (b : Bool) → refuse_fields b ≡ ok tt → b ≡ false
unfolding refuse_fields
refuse_fields-false true h = cc
refuse_fields-false false h = refl

module _ (fl : Floats) where
  validate_spec-template :
      (given : Option DriverSandboxSpec)
      → validate_spec fl given ≡ ok tt
      → (Ec2.validate_spec fl given ≡ ok tt)
        × (spec : DriverSandboxSpec) × (template : DriverSandboxTemplate) × (given ≡ some spec)
        × (spec.template ≡ some template)
        × (unsupported_fields spec template ≡ false)
  unfolding validate_spec Ec2.validate_spec validate_template
  validate_spec-template none h = absurd (cc)
  validate_spec-template (some spec) h = elim (Option-cases spec.template) [
    | inl e ↦ (let h' = subst (λ t. validate_template fl spec t ≡ ok tt) e h in absurd (cc))
    | inr (template, e) ↦
        (let h' = subst (λ t. validate_template fl spec t ≡ ok tt) e h in
          let (before, last) =
            then-ok (Ec2.validate_template fl spec (some template))
              (refuse_fields (unsupported_fields spec template)) h' in
          (
            subst (λ t. Ec2.validate_template fl spec t ≡ ok tt) (sym e) before,
            spec,
            template,
            refl,
            e,
            refuse_fields-false _ last,
          ))
  ]

  -- What this driver admits the EC2 driver admits; and it has a spec with a template, of which the
  -- environments and the labels are empty, and the platform's and the driver's configuration unset.
  pub validate_sandbox-IsSupported :
      (sb : DriverSandbox)
      → validate_sandbox fl (some sb) ≡ ok tt
      → (Ec2.validate_sandbox fl (some sb) ≡ ok tt) × IsSupported sb
  unfolding validate_sandbox Ec2.validate_sandbox unsupported_fields
  validate_sandbox-IsSupported sb h =
      let (_, h₁) = then-ok (validate_text "sandbox ID" sb.id true 256) _ h in
      let (_, h₂) = then-ok (validate_text "sandbox name" sb.name true 246) _ h₁ in
      let (_, h₃) = then-ok (validate_text "namespace" sb.namespace false 256) _ h₂ in
      let (_, h₄) = then-ok (validate_text "workspace" sb.workspace false 256) _ h₃ in
      let (ec2, spec, template, given, given', supported) = validate_spec-template sb.spec h₄ in
      (
        then-ok_back (validate_text "sandbox ID" sb.id true 256) _ _ h (
            then-ok_back (validate_text "sandbox name" sb.name true 246) _ _ h₁ (
              then-ok_back (validate_text "namespace" sb.namespace false 256) _ _ h₂
                (then-ok_back (validate_text "workspace" sb.workspace false 256) _ _ h₃ ec2))),
        record {
          spec = spec;
          template = template;
          spec_given = given;
          template_given = given';
          no_environment = is_filled-false spec.environment (ground (arith, supported));
          no_template_environment =
              is_filled-false template.environment (ground (arith, supported));
          no_labels = is_filled-false template.labels (ground (arith, supported));
          no_platform_config = is_set-false template.platform_config (ground (arith, supported));
          no_driver_config = is_set-false template.driver_config (ground (arith, supported));
        },
      )
