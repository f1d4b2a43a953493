-- ===== src/Ec2/Admission.antt =====
-- What `validateSandbox` of drivers/ec2/driver.go admits, and what the choice of an instance type of
-- drivers/ec2/instancetype.go may then still fail with.
use Prim.Native.String.{len}
use openshell_drivers_contri.Prelude.{
  ℕ, String, ◌≡◌, ◌≤◌, ◌*◌, refl, Bool, true, false, Option, none, some, [], arith, ◌==◌,
  Option-cases, inl, inr, subst, ◌⊎◌, Bool-cases, eq_iff,
}
use openshell_drivers_contri.Prelude.Result.{ok, err, Result-cases, then-ok, Result}
use openshell_drivers_contri.Proto.Messages.{
  DriverSandbox, DriverSandboxSpec, DriverSandboxTemplate, GpuResourceRequirements,
  DriverResourceRequirements,
}
use openshell_drivers_contri.Proto.Getters.{get_template, get_resources, get_gpu, get_count}
use openshell_drivers_contri.Text.{has_control}
use openshell_drivers_contri.Quantity.Floats.{Floats}
use openshell_drivers_contri.Quantity.Parse.{check, parse_cpu, parse_memory, validate_requirements}
use openshell_drivers_contri.Quantity.Parse as Parse
use openshell_drivers_contri.Sizing.Select.{Sorter, Error, no_instance_type, choose}
use openshell_drivers_contri.Sizing.Laws.{nil_parts, validated-choose}
use openshell_drivers_contri.Ec2.Catalog.{instance_types, select_instance_type}
use openshell_drivers_contri.Ec2.Validate.{
  validate_text, validate_log_level, validate_gpu, of_errors, validate_resources, validate_template,
  validate_spec, validate_sandbox,
}

-- A text within its bound and without a control character.
pub record IsPlain (value : String) (max : ℕ) : Type 0 where
  pub short : len value ≤ max
  pub printable : has_control value ≡ false

validate_text-IsPlain :
    (name value : String) (is_required : Bool) (max : ℕ)
    → validate_text name value is_required max ≡ ok tt
    → IsPlain value max
unfolding validate_text
validate_text-IsPlain name value is_required max h = record {
  short = ground arith;
  printable = ground arith;
}

validate_text_required :
    (name value : String) (max : ℕ)
    → validate_text name value true max ≡ ok tt
    → (value == "") ≡ false
unfolding validate_text
validate_text_required name value max h = ground arith

-- A log level of the protocol, or none.
abbrev pub IsLevel : String → Type 0
IsLevel level =
    (level ≡ "") ⊎ (level ≡ "debug") ⊎ (level ≡ "info") ⊎ (level ≡ "warn") ⊎ (level ≡ "error")

validate_log_level-IsLevel : (level : String) → validate_log_level level ≡ ok tt → IsLevel level
unfolding validate_log_level
validate_log_level-IsLevel level h = ground (
  arith,
  eq_iff level "",
  eq_iff level "debug",
  eq_iff level "info",
  eq_iff level "warn",
  eq_iff level "error",
)

module _ (fl : Floats) where
  -- A quantity that is given parses.
  abbrev pub Parses : (String → Result Parse.Error fl.Float) → String → Type 0
  Parses parse text = (text ≡ "") ⊎ ((v : fl.Float) × (parse text ≡ ok v))

  abbrev pub AllParse : DriverResourceRequirements → Type 0
  AllParse r =
      Parses (parse_cpu fl) r.cpu_request
      × Parses (parse_cpu fl) r.cpu_limit
      × Parses (parse_memory fl) r.memory_request
      × Parses (parse_memory fl) r.memory_limit

  check-Parses :
      (parse : String → Result Parse.Error fl.Float) (field : Parse.Field) (text : String)
      → check fl parse field text ≡ []
      → Parses parse text
  unfolding check
  check-Parses parse field text h = elim (Bool-cases (text == "")) [
    | inl absent ↦ inl ((eq_iff text "").0 absent)
    | inr given ↦ elim (Result-cases (parse text)) [
      | inl found ↦ inr found
      | inr (e, p) ↦ absurd (ground (arith, given, p))
    ]
  ]

  validate_requirements-AllParse :
      (r : DriverResourceRequirements)
      → validate_requirements fl r.cpu_request r.cpu_limit r.memory_request r.memory_limit ≡ []
      → AllParse r
  unfolding validate_requirements
  validate_requirements-AllParse r h =
      let (c₁, c₂, m₁, m₂) = nil_parts _ _ _ _ h in
      (
        check-Parses (parse_cpu fl) _ r.cpu_request c₁,
        check-Parses (parse_cpu fl) _ r.cpu_limit c₂,
        check-Parses (parse_memory fl) _ r.memory_request m₁,
        check-Parses (parse_memory fl) _ r.memory_limit m₂,
      )

  -- What a spec that is admitted asks for: no GPU, a token that fits, quantities that parse.
  pub record SpecIsAdmitted (spec : DriverSandboxSpec) : Type 0 where
    pub template : DriverSandboxTemplate
    pub given : spec.template ≡ some template
    pub token : IsPlain spec.sandbox_token (16 * 1024)
    pub no_gpu : get_count (get_gpu spec.resource_requirements) ≡ 0
    pub level : IsLevel spec.log_level
    pub parses : validate_resources fl template.resources ≡ ok tt
    pub quantities : elim template.resources as (λ _. Type 0) [
      | none ↦ Unit {0}
      | some r ↦ AllParse r
    ]

  pub record IsAdmitted (sb : DriverSandbox) : Type 0 where
    pub id : IsPlain sb.id 256
    pub id_given : (sb.id == "") ≡ false
    pub name : IsPlain sb.name 246
    pub name_given : (sb.name == "") ≡ false
    pub namespace : IsPlain sb.namespace 256
    pub workspace : IsPlain sb.workspace 256
    pub spec : DriverSandboxSpec
    pub spec_given : sb.spec ≡ some spec
    pub spec_admitted : SpecIsAdmitted spec

  validate_gpu_none :
      (gpu : Option GpuResourceRequirements) → validate_gpu gpu ≡ ok tt → get_count gpu ≡ 0
  unfolding validate_gpu
  validate_gpu_none none h = refl
  validate_gpu_none (some gpu) h = ground arith

  quantities_of :
      (resources : Option DriverResourceRequirements)
      → validate_resources fl resources ≡ ok tt
      → (elim resources as (λ _. Type 0) [ none ↦ Unit {0} | some r ↦ AllParse r ])
  unfolding validate_resources of_errors
  quantities_of none h = tt
  quantities_of (some r) h = validate_requirements-AllParse r (ground arith)

  validate_template-SpecIsAdmitted :
      (spec : DriverSandboxSpec)
      → validate_template fl spec spec.template ≡ ok tt
      → SpecIsAdmitted spec
  unfolding validate_template
  validate_template-SpecIsAdmitted spec h = elim (Option-cases spec.template) [
    | inl e ↦ (let h' = subst (λ t. validate_template fl spec t ≡ ok tt) e h in absurd (cc))
    | inr (template, e) ↦
        (let h' = subst (λ t. validate_template fl spec t ≡ ok tt) e h in
          let (token, h₁) = then-ok _ _ h' in
          let (level, h₂) = then-ok (validate_log_level spec.log_level) _ h₁ in
          let (gpu, resources) = then-ok (validate_gpu (get_gpu spec.resource_requirements)) _ h₂ in
          record {
            template = template;
            given = e;
            token = validate_text-IsPlain _ _ _ _ token;
            no_gpu = validate_gpu_none (get_gpu spec.resource_requirements) gpu;
            level = validate_log_level-IsLevel spec.log_level level;
            parses = resources;
            quantities = quantities_of template.resources resources;
          })
  ]

  validate_spec-SpecIsAdmitted :
      (given : Option DriverSandboxSpec)
      → validate_spec fl given ≡ ok tt
      → (spec : DriverSandboxSpec) × (given ≡ some spec) × SpecIsAdmitted spec
  unfolding validate_spec
  validate_spec-SpecIsAdmitted none h = absurd (cc)
  validate_spec-SpecIsAdmitted (some spec) h = (spec, refl, validate_template-SpecIsAdmitted spec h)

  -- A sandbox that is admitted has an ID and a name, texts within their bounds and without control
  -- characters, a spec with a template, a token of at most 16 KiB, a log level that is
  -- known or empty, no GPU, and quantities of which each that is given parses.
  pub validate_sandbox-IsAdmitted :
      (sb : DriverSandbox) → validate_sandbox fl (some sb) ≡ ok tt → IsAdmitted sb
  unfolding validate_sandbox
  validate_sandbox-IsAdmitted sb h =
      let (id, h₁) = then-ok (validate_text "sandbox ID" sb.id true 256) _ h in
      let (name, h₂) = then-ok (validate_text "sandbox name" sb.name true 246) _ h₁ in
      let (namespace, h₃) = then-ok (validate_text "namespace" sb.namespace false 256) _ h₂ in
      let (workspace, h₄) = then-ok (validate_text "workspace" sb.workspace false 256) _ h₃ in
      let (spec, given, admitted) = validate_spec-SpecIsAdmitted sb.spec h₄ in
      record {
        id = validate_text-IsPlain _ _ _ _ id;
        id_given = validate_text_required _ _ _ id;
        name = validate_text-IsPlain _ _ _ _ name;
        name_given = validate_text_required _ _ _ name;
        namespace = validate_text-IsPlain _ _ _ _ namespace;
        workspace = validate_text-IsPlain _ _ _ _ workspace;
        spec = spec;
        spec_given = given;
        spec_admitted = admitted;
      }

  validated-select_instance_type :
      (sorter : Sorter) (resources : Option DriverResourceRequirements) (default_type : String)
      (e : Error)
      → validate_resources fl resources ≡ ok tt
      → select_instance_type fl sorter resources default_type ≡ err e
      → e ≡ no_instance_type
  unfolding validate_resources select_instance_type of_errors
  validated-select_instance_type sorter none default_type e valid h = absurd (cc)
  validated-select_instance_type sorter (some r) default_type e valid h =
      elim (Result-cases (choose fl sorter instance_types r)) [
        | inl (t, p) ↦ ground (arith, p)
        | inr (e', p) ↦
            (let same = validated-choose fl sorter instance_types r e' no_errors p in
              ground (arith, p))
      ]
    where
      no_errors :
          validate_requirements fl r.cpu_request r.cpu_limit r.memory_request r.memory_limit ≡ []
      no_errors = ground arith

  -- For a sandbox that is admitted, the choice of an instance type fails only for want of a type,
  -- never by a quantity.
  pub validate_sandbox-select_instance_type :
      (sorter : Sorter) (sb : DriverSandbox) (default_type : String) (e : Error)
      → validate_sandbox fl (some sb) ≡ ok tt
      → select_instance_type fl sorter (get_resources (get_template sb.spec)) default_type ≡ err e
      → e ≡ no_instance_type
  validate_sandbox-select_instance_type sorter sb default_type e valid h =
      let admitted = validate_sandbox-IsAdmitted sb valid in
      let spec_admitted = admitted.spec_admitted in
      validated-select_instance_type sorter spec_admitted.template.resources default_type e
        spec_admitted.parses
        (subst (λ r. select_instance_type fl sorter r default_type ≡ err e)
          (same_resources sb.spec admitted.spec spec_admitted.template admitted.spec_given
            spec_admitted.given)
          h)
    where
      same_resources :
          (given : Option DriverSandboxSpec) (spec : DriverSandboxSpec)
          (template : DriverSandboxTemplate)
          → given ≡ some spec
          → spec.template ≡ some template
          → get_resources (get_template given) ≡ template.resources
      same_resources given spec template p q = rw (p, q) refl
