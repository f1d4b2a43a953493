-- ===== src/Ec2/Settings.antt =====
-- `Config.Validate` of drivers/ec2/config.go. Go's regexp is a parameter: whether a pattern matches a
-- text.
use Prim.Native.String.{len}
use openshell_drivers_contri.Prelude.{
  ℕ, ◌*◌, ◌<◌, ◌≤◌, ◌≡◌, refl, String, Bool, not, ◌||◌, List, [], ◌∷◌, join, join-nil, arith, ltb,
  ◌==◌, if◌then◌else◌,
}
use openshell_drivers_contri.Prelude.Int.{ℤ, pos, negsuc}
use openshell_drivers_contri.Prelude.Result.{Result, ok, err}
use openshell_drivers_contri.Text.{contains_any}
use openshell_drivers_contri.Safeguards.Records.{
  Limits, hour, effective_max_instances, effective_max_age,
}
use openshell_drivers_contri.Bootstrap.Library.{Library}
use openshell_drivers_contri.Bootstrap.Transport.{TransportError}
use openshell_drivers_contri.Bootstrap.Transport as Transport
use openshell_drivers_contri.Ec2.Config.{Config}

-- The errors that are joined, each with the field that it names.
pub data ConfigError : Type 0 where
  is_required is_malformed is_too_long is_out_of_range has_control_character : String → ConfigError
  bad_transport : TransportError → ConfigError

-- if value == "" { … } else if !pattern.MatchString(value) { … }
unfoldable pub check_text : Bool → String → String → List ConfigError
check_text good field value =
    if value == "" then is_required field ∷ [] else if good then [] else is_malformed field ∷ []

unfoldable pub check_gateway_id : String → List ConfigError
check_gateway_id value =
    if value == ""
    then is_required "gatewayID" ∷ []
    else if ltb 256 (len value)
    then is_too_long "gatewayID" ∷ []
    else []

-- value <= 0 || value > max
unfoldable pub check_range : String → ℕ → ℤ → List ConfigError
check_range field max (negsuc n) = is_out_of_range field ∷ []
check_range field max (pos n) =
    if not (ltb 0 n) || ltb max n then is_out_of_range field ∷ [] else []

unfoldable pub check_control : String → String → List ConfigError
check_control field value =
    if contains_any "\0\r\n" value then has_control_character field ∷ [] else []

unfoldable pub check_transport : Result TransportError (Unit {0}) → List ConfigError
check_transport (ok _) = []
check_transport (err e) = bad_transport e ∷ []

module _ (matches : String → String → Bool) (lib : Library) where
  -- The errors of each test. The source ranges over a map in the last loop, so the order of its
  -- errors is not determined.
  unfoldable pub checks : Config → List (List ConfigError)
  unfolding check_text check_gateway_id check_range check_control check_transport
  checks c =
      check_text (matches "^ami-[A-Za-z0-9]+$" c.ami_id) "amiID" c.ami_id
      ∷ check_text (matches "^subnet-[A-Za-z0-9]+$" c.subnet_id) "subnetID" c.subnet_id
      ∷ check_text (matches "^sg-[A-Za-z0-9]+$" c.security_group_id) "securityGroupID"
          c.security_group_id
      ∷ check_transport (Transport.validate lib c.transport)
      ∷ check_text (matches "^[a-z0-9][a-z0-9.-]+$" c.default_instance) "defaultInstance"
          c.default_instance
      ∷ check_gateway_id c.gateway_id
      ∷ check_text (matches "^[a-z]{2}(-gov)?-[a-z]+-[0-9]+$" c.region) "region" c.region
      ∷ check_range "pollInterval" hour c.poll_interval
      ∷ check_range "diskSizeGB" 16384 c.disk_size_gb
      ∷ check_range "maxInstances" 1000 c.max_instances
      ∷ check_range "maxInstanceAge" (30 * (24 * hour)) c.max_instance_age
      ∷ check_control "AMIID" c.ami_id
      ∷ check_control "SubnetID" c.subnet_id
      ∷ check_control "SecurityGroupID" c.security_group_id
      ∷ check_control "GatewayID" c.gateway_id
      ∷ check_control "DefaultInstance" c.default_instance
      ∷ check_control "Region" c.region
      ∷ check_control "KeyName" c.key_name
      ∷ []

  unfoldable pub validate : Config → List ConfigError
  unfolding checks
  validate c = join (checks c)

-- A number between one and the bound.
pub record IsBetween (max : ℕ) (value : ℤ) : Type 0 where
  pub number : ℕ
  pub is : value ≡ pos number
  pub positive : 0 < number
  pub bounded : number ≤ max

pub check_range-IsBetween :
    (field : String) (max : ℕ) (value : ℤ) → check_range field max value ≡ [] → IsBetween max value
unfolding check_range
check_range-IsBetween field max (negsuc n) h = cc
check_range-IsBetween field max (pos n) h = record {
  number = n;
  is = refl;
  positive = ground arith;
  bounded = ground arith;
}

pub check_transport-ok : (r : Result TransportError (Unit {0})) → check_transport r ≡ [] → r ≡ ok tt
unfolding check_transport
check_transport-ok (ok _) h = refl
check_transport-ok (err e) h = cc

pub check_gateway_id-le : (s : String) → check_gateway_id s ≡ [] → len s ≤ 256
unfolding check_gateway_id
check_gateway_id-le s h = ground arith

module _ (matches : String → String → Bool) (lib : Library) where
  -- A configuration that is accepted: its numbers lie in their ranges, so the registry's limits on
  -- number and age are those that it gives, never the defaults.
  pub record IsBounded (c : Config) : Type 0 where
    pub poll_interval : IsBetween hour c.poll_interval
    pub disk_size_gb : IsBetween 16384 c.disk_size_gb
    pub max_instances : IsBetween 1000 c.max_instances
    pub max_instance_age : IsBetween (30 * (24 * hour)) c.max_instance_age
    pub transport : Transport.validate lib c.transport ≡ ok tt
    pub gateway_id : len c.gateway_id ≤ 256

  -- A configuration that is accepted has a poll interval, a disk size, a number of instances and
  -- an age within their bounds, a valid transport, and a gateway ID of at most 256 bytes.
  pub validate-IsBounded : (c : Config) → validate matches lib c ≡ [] → IsBounded c
  unfolding validate checks
  validate-IsBounded c h =
      let (_, (_, (_, (transport, (_, (gateway, (_, (poll, (disk, (instances, (age, _))))))))))) =
        join-nil (checks matches lib c) h in
      record {
        poll_interval = check_range-IsBetween _ _ c.poll_interval poll;
        disk_size_gb = check_range-IsBetween _ _ c.disk_size_gb disk;
        max_instances = check_range-IsBetween _ _ c.max_instances instances;
        max_instance_age = check_range-IsBetween _ _ c.max_instance_age age;
        transport = check_transport-ok (Transport.validate lib c.transport) transport;
        gateway_id = check_gateway_id-le c.gateway_id gateway;
      }

-- The limits that the driver gives its registry.
abbrev pub limits_of : Config → Limits
limits_of c = record { max_instances = c.max_instances; max_instance_age = c.max_instance_age }

positive_limit :
    (max : ℕ) (l : Limits)
    → IsBetween max l.max_instances
    → pos (effective_max_instances l) ≡ l.max_instances
unfolding effective_max_instances
positive_limit max l b = rw (b.is) (ground (arith, b.positive))

positive_age :
    (max : ℕ) (l : Limits)
    → IsBetween max l.max_instance_age
    → pos (effective_max_age l) ≡ l.max_instance_age
unfolding effective_max_age
positive_age max l b = rw (b.is) (ground (arith, b.positive))

-- Under an accepted configuration the registry's limits on number and age are the configured ones,
-- and no default takes their place.
pub validate-effective_limits :
    (matches : String → String → Bool) (lib : Library) (c : Config)
    → validate matches lib c ≡ []
    → (pos (effective_max_instances (limits_of c)) ≡ c.max_instances)
      × (pos (effective_max_age (limits_of c)) ≡ c.max_instance_age)
validate-effective_limits matches lib c h =
    let b = validate-IsBounded matches lib c h in
    (
      positive_limit 1000 (limits_of c) b.max_instances,
      positive_age (30 * (24 * hour)) (limits_of c) b.max_instance_age,
    )
