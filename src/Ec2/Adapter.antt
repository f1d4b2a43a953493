-- ===== src/Ec2/Adapter.antt =====
-- The AWS adapter of drivers/ec2/ec2.go. The API of the AWS SDK is a parameter; a pointer to a text or
-- a number is that text or number, and the constants of the SDK are texts.
use Prim.Native.String.{◌++◌ as concat}
use openshell_drivers_contri.Prelude.{
  ℕ, String, Bool, true, false, Option, none, some, List, [], ◌∷◌, ◌++◌, map, join, eqb, ◌==◌,
  if◌then◌else◌,
}
use openshell_drivers_contri.Prelude.Assoc.{lookup, insert}
use openshell_drivers_contri.Prelude.Int.{ℤ}
use openshell_drivers_contri.Prelude.Result.{Result, ok, err}
use openshell_drivers_contri.Safeguards.Records.{Time}
use openshell_drivers_contri.Service.{World}
use openshell_drivers_contri.Ec2.Provider.{LaunchSpec, InstanceFilter, Instance, Failure, Provider}

abbrev pub Tag : Type 0
Tag = String × String

-- ec2types.Instance, the fields that are read; the zero time is 0.
pub record RawInstance : Type 0 where
  pub instance_id : String
  pub tags : List Tag
  pub launch_time : Time
  pub state : Option String

-- awsec2.RunInstancesInput, the fields that are set; an absent text is `none`.
pub record RunInstancesInput : Type 0 where
  pub image_id : String
  pub instance_type : String
  pub min_count : ℕ
  pub max_count : ℕ
  pub subnet_id : String
  pub security_group_ids : List String
  pub user_data : String
  pub client_token : String
  pub shutdown_behavior : String
  pub tag_specifications : List (String × List Tag)
  pub metadata_endpoint : String
  pub device_name : String
  pub volume_size : ℤ
  pub volume_type : String
  pub encrypted : Bool
  pub delete_on_termination : Bool
  pub key_name : Option String
  pub market_type : Option String

-- EC2API, with the text of a time and back, and whether the context is cancelled or past its deadline. A nil output of RunInstances is `none`. The pages are
-- what the paginator's NextPage returns until there are no more or one fails.
pub record Ec2Api (S : Type 0) : Type 0 where
  pub format_time : Time → String
  pub parse_time : String → Option Time
  pub context_state : World S → Bool × Bool
  pub run_instances :
      RunInstancesInput → World S → Result Failure (Option (List RawInstance)) × World S
  pub terminate_instances : List String → World S → Result Failure (Unit {0}) × World S
  pub stop_instances : List String → World S → Result Failure (Unit {0}) × World S
  pub describe_pages :
      List (String × List String)
      → World S
      → List (Result Failure (List (List RawInstance))) × World S

unfoldable pub tag_map : List Tag → List Tag → List Tag
tag_map tags [] = tags
tag_map tags ((key, value) ∷ rest) = tag_map (insert key value tags) rest

unfoldable pub tag_value : String → List Tag → String
tag_value key tags = elim (lookup key tags) [ none ↦ "" | some value ↦ value ]

module _ {S : Type 0} (api : Ec2Api S) where
  -- An error of the adapter itself: neither a context's nor an API's.
  unfoldable pub plain_failure : World S → Failure
  plain_failure w =
      let (canceled, late) = api.context_state w in
      record {
        err_canceled = false;
        ctx_canceled = canceled;
        err_deadline = false;
        ctx_deadline = late;
        api_code = none;
      }

  unfoldable pub parsed_time : String → Time
  parsed_time text = elim (api.parse_time text) [ none ↦ 0 | some time ↦ time ]

  unfoldable pub normalize_instance : RawInstance → Instance
  unfolding tag_map tag_value parsed_time
  normalize_instance raw =
      let tags = tag_map [] raw.tags in
      record {
        id = raw.instance_id;
        sandbox_id = tag_value "openshell.io/sandbox-id" tags;
        name = tag_value "openshell.io/sandbox-name" tags;
        namespace = tag_value "openshell.io/namespace" tags;
        workspace = tag_value "openshell.io/workspace" tags;
        state = elim raw.state [ none ↦ "" | some name ↦ name ];
        created_at =
            if eqb raw.launch_time 0
            then parsed_time (tag_value "openshell.io/created-at" tags)
            else raw.launch_time;
      }

  unfoldable pub launch_tags : LaunchSpec → List Tag
  launch_tags spec =
      ("openshell.io/sandbox-id", spec.sandbox_id)
      ∷ ("openshell.io/sandbox-name", spec.name)
      ∷ ("openshell.io/namespace", spec.namespace)
      ∷ ("openshell.io/gateway-id", spec.gateway_id)
      ∷ ("openshell.io/workspace", spec.workspace)
      ∷ ("openshell.io/created-at", api.format_time spec.created_at)
      ∷ ("openshell.io/max-lifetime", spec.max_lifetime)
      ∷ ("Name", concat "openshell-" spec.name)
      ∷ []

  unfoldable pub launch_input : LaunchSpec → RunInstancesInput
  unfolding launch_tags
  launch_input spec =
      let tags = launch_tags spec in
      let tagged = ("instance", tags) ∷ ("volume", tags) ∷ ("network-interface", tags) ∷ [] in
      record {
        image_id = spec.image_id;
        instance_type = spec.instance_type;
        min_count = 1;
        max_count = 1;
        subnet_id = spec.subnet_id;
        security_group_ids = spec.security_group_id ∷ [];
        user_data = spec.user_data;
        client_token = spec.client_token;
        shutdown_behavior = "terminate";
        tag_specifications =
            if spec.use_spot then tagged ++ ("spot-instances-request", tags) ∷ [] else tagged;
        metadata_endpoint = "disabled";
        device_name = "/dev/sda1";
        volume_size = spec.disk_size_gb;
        volume_type = "gp3";
        encrypted = true;
        delete_on_termination = true;
        key_name = if spec.key_name == "" then none else some spec.key_name;
        market_type = if spec.use_spot then some "spot" else none;
      }

  -- What the answer leaves out is that of the spec.
  unfoldable pub filled_in : LaunchSpec → Instance → Instance
  filled_in spec i =
      let unnamed = i.sandbox_id == "" in
      record i {
        sandbox_id = if unnamed then spec.sandbox_id else i.sandbox_id;
        name = if unnamed then spec.name else i.name;
        namespace = if unnamed then spec.namespace else i.namespace;
        workspace = if unnamed then spec.workspace else i.workspace;
        created_at = if eqb i.created_at 0 then spec.created_at else i.created_at;
      }

  unfoldable pub launched :
      LaunchSpec → Option (List RawInstance) → World S → Result Failure Instance × World S
  unfolding normalize_instance filled_in plain_failure
  launched spec (some (raw ∷ [])) w =
      if (normalize_instance raw).id == ""
      then (err (plain_failure w), w)
      else (ok (filled_in spec (normalize_instance raw)), w)
  launched spec _ w = (err (plain_failure w), w)

  unfoldable pub after_run :
      LaunchSpec
      → Result Failure (Option (List RawInstance)) × World S
      → Result Failure Instance × World S
  unfolding launched
  after_run spec (err f, w) = (err f, w)
  after_run spec (ok output, w) = launched spec output w

  unfoldable pub launch : LaunchSpec → World S → Result Failure Instance × World S
  unfolding launch_input after_run
  launch spec w = after_run spec (api.run_instances (launch_input spec) w)

  abbrev filter_on : String → String → List (String × List String)
  filter_on name value = if value == "" then [] else (name, value ∷ []) ∷ []

  unfoldable pub filters_of : InstanceFilter → List (String × List String)
  filters_of f =
      filter_on "tag:openshell.io/gateway-id" f.gateway_id
      ++ (filter_on "tag:openshell.io/sandbox-id" f.sandbox_id
          ++ filter_on "tag:openshell.io/sandbox-name" f.name)

  unfoldable pub page_instances : List (List RawInstance) → List Instance
  unfolding normalize_instance
  page_instances reservations = map normalize_instance (join reservations)

  -- The first page that fails is the error of the whole.
  unfoldable pub collect :
      List (Result Failure (List (List RawInstance))) → Result Failure (List Instance)
  unfolding page_instances
  collect [] = ok []
  collect (err f ∷ pages) = err f
  collect (ok page ∷ pages) = elim (collect pages) [
    | err f ↦ err f
    | ok instances ↦ ok (page_instances page ++ instances)
  ]

  unfoldable pub list : InstanceFilter → World S → Result Failure (List Instance) × World S
  unfolding filters_of collect
  list f w = let (pages, w') = api.describe_pages (filters_of f) w in (collect pages, w')

  unfoldable pub stop : String → World S → Result Failure (Unit {0}) × World S
  stop id w = api.stop_instances (id ∷ []) w

  unfoldable pub terminate : List String → World S → Result Failure (Unit {0}) × World S
  terminate [] w = (ok tt, w)
  terminate (id ∷ ids) w = api.terminate_instances (id ∷ ids) w

  -- The adapter as the provider of the driver.
  unfoldable pub aws_provider : Provider S
  unfolding launch list stop terminate
  aws_provider = record { launch = launch; list = list; stop = stop; terminate = terminate }
