-- ===== src/Ec2/Provider.antt =====
-- The provider boundary of drivers/ec2/ec2.go: `InstanceProvider` and its data. A call of the provider
-- is outside the registry's mutex and may take long: the world that it returns may differ from the
-- one that it was given in the registry too, by what other goroutines did meanwhile.
use openshell_drivers_contri.Prelude.{String, Bool, Option, List}
use openshell_drivers_contri.Prelude.Int.{ℤ}
use openshell_drivers_contri.Prelude.Result.{Result}
use openshell_drivers_contri.Safeguards.Records.{Time}
use openshell_drivers_contri.Service.{World}

pub record LaunchSpec : Type 0 where
  pub sandbox_id : String
  pub name : String
  pub namespace : String
  pub workspace : String
  pub gateway_id : String
  pub image_id : String
  pub instance_type : String
  pub subnet_id : String
  pub security_group_id : String
  pub key_name : String
  pub user_data : String
  pub client_token : String
  pub use_spot : Bool
  pub disk_size_gb : ℤ
  pub created_at : Time
  pub max_lifetime : String

pub record InstanceFilter : Type 0 where
  pub gateway_id : String
  pub sandbox_id : String
  pub name : String

pub record Instance : Type 0 where
  pub id : String
  pub sandbox_id : String
  pub name : String
  pub namespace : String
  pub workspace : String
  pub state : String
  pub created_at : Time

-- What `providerError` asks of an error and of the context: whether each is context.Canceled or
-- context.DeadlineExceeded, and the code, if the error is an API error.
pub record Failure : Type 0 where
  pub err_canceled : Bool
  pub ctx_canceled : Bool
  pub err_deadline : Bool
  pub ctx_deadline : Bool
  pub api_code : Option String

pub record Provider (S : Type 0) : Type 0 where
  pub launch : LaunchSpec → World S → Result Failure Instance × World S
  pub list : InstanceFilter → World S → Result Failure (List Instance) × World S
  pub stop : String → World S → Result Failure (Unit {0}) × World S
  pub terminate : List String → World S → Result Failure (Unit {0}) × World S
