-- ===== src/Proto/Messages.antt =====
-- The message structs of gen/computepb/compute_driver.pb.go.
use openshell_drivers_contri.Prelude.{ℕ, String, Bool, Option, List}

pub record GpuResourceRequirements : Type 0 where
  pub count : Option ℕ

pub record ResourceRequirements : Type 0 where
  pub gpu : Option GpuResourceRequirements

pub record DriverResourceRequirements : Type 0 where
  pub cpu_request : String
  pub cpu_limit : String
  pub memory_request : String
  pub memory_limit : String

pub record DriverSandboxTemplate : Type 0 where
  pub image : String
  pub agent_socket_path : String
  pub labels : List (String × String)
  pub environment : List (String × String)
  pub resources : Option DriverResourceRequirements
  pub platform_config : Option (List ℕ)
  pub driver_config : Option (List ℕ)

pub record DriverSandboxSpec : Type 0 where
  pub log_level : String
  pub environment : List (String × String)
  pub template : Option DriverSandboxTemplate
  pub resource_requirements : Option ResourceRequirements
  pub sandbox_token : String

-- `last_transition_time` is the time whose RFC 3339 text the message holds.
pub record DriverCondition : Type 0 where
  pub type : String
  pub status : String
  pub reason : String
  pub message : String
  pub last_transition_time : ℕ

pub record DriverSandboxStatus : Type 0 where
  pub sandbox_name : String
  pub instance_id : String
  pub agent_fd : String
  pub sandbox_fd : String
  pub conditions : List DriverCondition
  pub deleting : Bool

pub record DriverSandbox : Type 0 where
  pub id : String
  pub name : String
  pub namespace : String
  pub spec : Option DriverSandboxSpec
  pub status : Option DriverSandboxStatus
  pub workspace : String

pub record DriverPlatformEvent : Type 0 where
  pub timestamp_ms : ℕ
  pub source : String
  pub type : String
  pub reason : String
  pub message : String
  pub metadata : List (String × String)

-- The `oneof` payload of an event.
pub data WatchSandboxesEvent : Type 0 where
  sandbox : DriverSandbox → WatchSandboxesEvent
  deleted : String → WatchSandboxesEvent
  platform_event : String → DriverPlatformEvent → WatchSandboxesEvent
