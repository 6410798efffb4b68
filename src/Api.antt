-- ===== src/Api.antt =====
-- The custom resource: api/v1alpha1/database_types.go. Of the Kubernetes metadata there is what the
-- controller reads. Generations are counted from 1 by the API server, so they are naturals.
pub mod Schema
use database_user_operator.Base.{ℕ, Bool, Option, String, List, Dict, ℤ}

pub record SecretKeyReference : Type 0 where
  pub name : String
  pub key : String

pub record AwsSecretReference : Type 0 where
  pub secret_name : String
  pub key : String
  pub region : String

pub record AwsSecretsManagerConfig : Type 0 where
  pub region : String
  pub description : String
  pub tags : Dict String

-- DatabaseSpec; a pointer that may be nil is an `Option`. The engine is a text.
pub record DatabaseSpec : Type 0 where
  pub engine : String
  pub database_name : String
  pub connection_string_secret_ref : Option SecretKeyReference
  pub connection_string_aws_secret_ref : Option AwsSecretReference
  pub username : String
  pub secret_name : String
  pub privileges : List String
  pub retain_on_delete : Option Bool
  pub aws_secrets_manager : Option AwsSecretsManagerConfig
  pub secret_template : String

-- ConnectionInfo of the status
pub record StatusConnectionInfo : Type 0 where
  pub host : String
  pub port : ℤ
  pub database : String
  pub username : String
  pub engine : String

-- DatabaseStatus, without the conditions, which the program never sets.
pub record DatabaseStatus : Type 0 where
  pub phase : String
  pub observed_generation : ℕ
  pub message : String
  pub database_created : Bool
  pub user_created : Bool
  pub secret_created : Bool
  pub secret_arn : String
  pub secret_version : String
  pub secret_format_version : String
  pub actual_username : String
  pub actual_secret_name : String
  pub secret_region : String
  pub connection_info : StatusConnectionInfo

pub record ObjectMeta : Type 0 where
  pub name : String
  pub namespace : String
  pub generation : ℕ
  pub deleted : Bool
  pub finalizers : List String

pub record Database : Type 0 where
  pub metadata : ObjectMeta
  pub spec : DatabaseSpec
  pub status : DatabaseStatus
