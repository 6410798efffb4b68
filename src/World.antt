-- ===== src/World.antt =====
-- What the operator calls and does not implement: the Kubernetes API, AWS Secrets Manager, the
-- database servers, crypto/rand, and the parts of Go's library whose result the program only passes
-- on (URLs, JSON, templates).
use database_user_operator.Base.{ℕ, ℤ, Bool, Option, String, List, Dict, Result}
use database_user_operator.Api.{Database}
use database_user_operator.Database.Sql.{PostgresStatement, MysqlStatement}

-- A driver of database/sql.
pub data Driver : Type 0 where
  postgres_driver mysql_driver : Driver

-- *sql.DB: what sql.Open was given.
pub record Handle : Type 0 where
  pub driver : Driver
  pub dsn : String

pub data Statement : Type 0 where
  postgres : PostgresStatement → Statement
  mysql : MysqlStatement → Statement

-- The queries that return a row: EXISTS of PostgreSQL, COUNT(*) of MySQL.
pub data Query : Type 0 where
  database_exists : (name : String) → Query
  user_exists : (username : String) → Query
  database_count : (name : String) → Query
  user_count : (username : String) → Query

-- What the row of a query is scanned into.
abbrev pub Row : Query → Type 0
Row (database_exists _) = Bool
Row (user_exists _) = Bool
Row (database_count _) = ℕ
Row (user_count _) = ℕ

-- The fields of DescribeSecretOutput that are read.
pub record Description : Type 0 where
  pub arn : Option String
  pub tags : List (Option String × Option String)

-- The fields of CreateSecretOutput and UpdateSecretOutput that are read.
pub record Written : Type 0 where
  pub arn : Option String
  pub version_id : Option String

pub record CreateSecretInput : Type 0 where
  pub name : String
  pub description : String
  pub secret_string : String
  pub tags : Dict String

-- UpdateSecretInput; a field that is not set is `none`.
pub record UpdateSecretInput : Type 0 where
  pub secret_id : String
  pub secret_string : Option String
  pub description : Option String

-- One call that leaves the program. A call to AWS carries the region of its client.
pub data Call : Type 0 where
  get_database : (namespace name : String) → Call
  get_kube_secret : (namespace name : String) → Call
  update_object : Database → Call
  update_status : Database → Call
  record_event : (event_type reason message : String) → Call
  read_random : ℕ → Call
  sql_open : Handle → Call
  sql_ping : Handle → Call
  sql_close : Handle → Call
  sql_exec : Handle → Statement → Call
  sql_query : Handle → Query → Call
  -- config.LoadDefaultConfig; the region is empty where the program gives none
  load_config : (region : String) → Call
  describe_secret : (region name : String) → Call
  get_secret_value : (region name : String) → Call
  create_secret : (region : String) → CreateSecretInput → Call
  update_secret : (region : String) → UpdateSecretInput → Call
  -- the flag is ForceDeleteWithoutRecovery, the number RecoveryWindowInDays
  delete_secret : (region name : String) → Bool → Option ℕ → Call
  restore_secret : (region name : String) → Call
  tag_resource : (region name : String) → Dict String → Call
  untag_resource : (region name : String) → List String → Call

-- What a successful call returns.
abbrev pub Reply : Call → Type 0
Reply (get_database _ _) = Database
Reply (get_kube_secret _ _) = Dict String
Reply (read_random _) = List ℕ
Reply (sql_query _ q) = Row q
Reply (load_config _) = String
Reply (describe_secret _ _) = Description
Reply (get_secret_value _ _) = Option String
Reply (create_secret _ _) = Written
Reply (update_secret _ _) = Written
Reply _ = Unit

-- *url.URL, as far as it is read: Hostname(), Port(), Path, User and Query().Get("sslmode").
pub record Url : Type 0 where
  pub hostname : String
  pub port : String
  pub path : String
  pub user : Option (String × Option String)
  pub sslmode : String

-- A value of encoding/json. A number stands for the int that it is converted to.
pub data Value : Type 0 where
  text : String → Value
  number : ℤ → Value
  other : Value

-- DatabaseSecret of internal/secrets/aws_secrets_manager.go
pub record DatabaseSecret : Type 0 where
  pub db_host : String
  pub db_port : ℤ
  pub db_name : String
  pub db_username : String
  pub db_password : String
  pub database_url : String
  pub engine : String

-- The environment. A reply may depend on all the calls before it (the newest first), so an
-- environment may keep any state, fail at any call, and change between two calls.
pub record World : Type 0 where
  pub reply : List Call → (c : Call) → Result (Reply c)
  -- url.Parse and url.QueryEscape
  pub parse_url : String → Result Url
  pub query_escape : String → String
  -- json.Marshal of a map; json.Unmarshal into a DatabaseSecret, a map and an interface value
  pub marshal : Dict Value → Result String
  pub unmarshal_secret : String → Result DatabaseSecret
  pub unmarshal_map : String → Result (Dict Value)
  pub unmarshal_any : String → Result Value
  -- template.New("secret").Parse, whose result is executed on a DatabaseSecret
  pub parse_template : String → Result (DatabaseSecret → Result String)
