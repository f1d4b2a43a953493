-- ===== src/Kubevirt/Settings.antt =====
-- `Config.Validate` of drivers/kubevirt/config.go. The tests of names and the quantities of
-- k8s.io/apimachinery are parameters.
use Prim.Native.String.{len}
use openshell_drivers_contri.Prelude.{
  ℕ, ◌*◌, ◌≤◌, ◌≡◌, String, Bool, true, false, not, ◌&&◌, ◌||◌, Option, none, some, List, [], ◌∷◌,
  join, join-nil, arith, ◌==◌, if◌then◌else◌, Option-cases, inl, inr,
}
use openshell_drivers_contri.Prelude.Int.{ℤ, pos, ltb_ℤ}
use openshell_drivers_contri.Prelude.Result.{ok}
use openshell_drivers_contri.Safeguards.Records.{hour}
use openshell_drivers_contri.Bootstrap.Library.{Library}
use openshell_drivers_contri.Bootstrap.Transport as Transport
use openshell_drivers_contri.Ec2.Settings.{
  ConfigError, is_required, is_malformed, is_out_of_range, check_text, check_gateway_id,
  check_range, check_control, check_transport, IsBetween, check_range-IsBetween, check_transport-ok,
  check_gateway_id-le,
}
use openshell_drivers_contri.Kubevirt.Config.{Config}

-- What Validate asks of k8s.io/apimachinery.
pub record Naming : Type 0 where
  -- len(utilvalidation.IsDNS1123Label(s)) == 0, and for IsDNS1123Subdomain
  pub is_dns_label : String → Bool
  pub is_dns_subdomain : String → Bool
  -- resource.ParseQuantity, in 10⁻⁹ bytes, the finest part that a quantity keeps
  pub parse_quantity : String → Option ℤ

abbrev pub gib : ℕ
gib = 1000000000 * (1024 * (1024 * 1024))

unfoldable pub check_disk_size : String → Option ℤ → List ConfigError
check_disk_size value none =
    if value == "" then is_required "diskSize" ∷ [] else is_malformed "diskSize" ∷ []
check_disk_size value (some size) =
    if value == ""
    then is_required "diskSize" ∷ []
    else if ltb_ℤ size (pos gib) || ltb_ℤ (pos (16 * (1024 * gib))) size
    then is_out_of_range "diskSize" ∷ []
    else []

unfoldable pub check_optional : Bool → String → String → List ConfigError
check_optional good field value =
    if not (value == "") && not good then is_malformed field ∷ [] else []

module _ (naming : Naming) (lib : Library) where
  open naming use {is_dns_label, is_dns_subdomain, parse_quantity}

  -- The errors of each test. The source ranges over a map in the last loop, so the order of its
  -- errors is not determined.
  unfoldable pub checks : Config → List (List ConfigError)
  unfolding check_disk_size check_optional check_text check_gateway_id check_range check_control
      check_transport
  checks c =
      check_text (is_dns_label c.namespace) "namespace" c.namespace
      ∷ check_text (is_dns_subdomain c.boot_source) "bootSource" c.boot_source
      ∷ check_text (is_dns_label c.boot_source_namespace) "bootSourceNamespace"
          c.boot_source_namespace
      ∷ check_text (is_dns_subdomain c.default_instance_type) "defaultInstanceType"
          c.default_instance_type
      ∷ check_optional (is_dns_subdomain c.default_preference) "defaultPreference"
          c.default_preference
      ∷ check_text (is_dns_subdomain c.storage_class) "storageClass" c.storage_class
      ∷ check_transport (Transport.validate lib c.transport)
      ∷ check_gateway_id c.gateway_id
      ∷ check_disk_size c.disk_size (parse_quantity c.disk_size)
      ∷ check_range "pollInterval" hour c.poll_interval
      ∷ check_range "maxInstances" 1000 c.max_instances
      ∷ check_range "maxInstanceAge" (30 * (24 * hour)) c.max_instance_age
      ∷ check_control "Namespace" c.namespace
      ∷ check_control "BootSource" c.boot_source
      ∷ check_control "BootSourceNamespace" c.boot_source_namespace
      ∷ check_control "DefaultInstanceType" c.default_instance_type
      ∷ check_control "DefaultPreference" c.default_preference
      ∷ check_control "StorageClass" c.storage_class
      ∷ check_control "GatewayID" c.gateway_id
      ∷ check_control "DiskSize" c.disk_size
      ∷ []

  unfoldable pub validate : Config → List ConfigError
  unfolding checks
  validate c = join (checks c)

  -- The root disk is between 1 GiB and 16 TiB.
  pub record IsDisk (text : String) : Type 0 where
    pub size : ℤ
    pub is : parse_quantity text ≡ some size
    pub not_small : ltb_ℤ size (pos gib) ≡ false
    pub not_large : ltb_ℤ (pos (16 * (1024 * gib))) size ≡ false

  -- A configuration that is accepted.
  pub record IsUsable (c : Config) : Type 0 where
    pub storage_class : is_dns_subdomain c.storage_class ≡ true
    pub transport : Transport.validate lib c.transport ≡ ok tt
    pub gateway_id : len c.gateway_id ≤ 256
    pub disk_size : IsDisk c.disk_size
    pub poll_interval : IsBetween hour c.poll_interval
    pub max_instances : IsBetween 1000 c.max_instances
    pub max_instance_age : IsBetween (30 * (24 * hour)) c.max_instance_age

  check_disk_size-IsDisk :
      (text : String) → check_disk_size text (parse_quantity text) ≡ [] → IsDisk text
  unfolding check_disk_size
  check_disk_size-IsDisk text h = elim (Option-cases (parse_quantity text)) [
    | inl e ↦ absurd (refuses_none text (rw e at h))
    | inr (size, e) ↦
        (let (a, b) = in_range text size (rw e at h) in
          record { size = size; is = e; not_small = a; not_large = b })
  ]
    where
      refuses_none : (text : String) → check_disk_size text none ≡ [] → ⊥
      refuses_none text h = ground arith

      in_range :
          (text : String) (size : ℤ)
          → check_disk_size text (some size) ≡ []
          → (ltb_ℤ size (pos gib) ≡ false) × (ltb_ℤ (pos (16 * (1024 * gib))) size ≡ false)
      in_range text size h = ground arith

  -- A configuration that is accepted names a storage class, has a valid transport, and has its
  -- disk's size, poll interval, number of machines, age and gateway ID within their bounds.
  pub validate-IsUsable : (c : Config) → validate c ≡ [] → IsUsable c
  unfolding validate checks
  validate-IsUsable c h =
      let (
        _,
        (
          _,
          (_, (_, (_, (storage, (transport, (gateway, (disk, (poll, (instances, (age, _)))))))))),
        ),
      ) =
        join-nil (checks c) h in
      record {
        storage_class = named _ _ _ storage;
        transport = check_transport-ok (Transport.validate lib c.transport) transport;
        gateway_id = check_gateway_id-le c.gateway_id gateway;
        disk_size = check_disk_size-IsDisk c.disk_size disk;
        poll_interval = check_range-IsBetween _ _ c.poll_interval poll;
        max_instances = check_range-IsBetween _ _ c.max_instances instances;
        max_instance_age = check_range-IsBetween _ _ c.max_instance_age age;
      }
    where
      named : (good : Bool) (field value : String) → check_text good field value ≡ [] → good ≡ true
      named good field value h = unfold check_text in ground arith
