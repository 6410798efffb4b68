-- ===== src/Tests/Outside.antt =====
-- Environments and objects for the tests.
use database_user_operator.Base.{
  pos, false, none, some, [], ◌∷◌, GoError, plain, resource_not_found, Result, ok, err,
}
use database_user_operator.World
use database_user_operator.World.{
  World, Call, Reply, Query, Row, Url, Value, DatabaseSecret, Description, Written,
}
use database_user_operator.Effects.{Calls}
use database_user_operator.Api.{ObjectMeta, DatabaseSpec, DatabaseStatus, Database}
use database_user_operator.Controller.State.{State}

-- A database server and an AWS account on which nothing exists yet, and where every call succeeds.
abbrev no_rows : (q : Query) → Row q
no_rows (World.database_exists _) = false
no_rows (World.user_exists _) = false
no_rows (World.database_count _) = 0
no_rows (World.user_count _) = 0

abbrev written : Written
written = record { arn = some "arn:1"; version_id = some "v1" }

abbrev pub fresh_reply : Calls → (c : Call) → Result (Reply c)
fresh_reply calls (World.get_database _ _) = err (plain "not asked")
fresh_reply calls (World.get_kube_secret _ _) =
    ok (("connectionString", "postgres://a:b@h/db") ∷ [])
fresh_reply calls (World.update_object _) = ok tt
fresh_reply calls (World.update_status _) = ok tt
fresh_reply calls (World.record_event _ _ _) = ok tt
fresh_reply calls (World.read_random _) = ok (1 ∷ 2 ∷ 3 ∷ [])
fresh_reply calls (World.sql_open _) = ok tt
fresh_reply calls (World.sql_ping _) = ok tt
fresh_reply calls (World.sql_close _) = ok tt
fresh_reply calls (World.sql_exec _ _) = ok tt
fresh_reply calls (World.sql_query _ q) = ok (no_rows q)
fresh_reply calls (World.load_config region) = ok region
fresh_reply calls (World.describe_secret _ _) = err (resource_not_found "no such secret")
fresh_reply calls (World.get_secret_value _ _) = err (resource_not_found "no such secret")
fresh_reply calls (World.create_secret _ _) = ok written
fresh_reply calls (World.update_secret _ _) = ok written
fresh_reply calls (World.delete_secret _ _ _ _) = ok tt
fresh_reply calls (World.restore_secret _ _) = ok tt
fresh_reply calls (World.tag_resource _ _ _) = ok tt
fresh_reply calls (World.untag_resource _ _ _) = ok tt

abbrev url : Url
url = record { hostname = "h"; port = ""; path = "/db"; user = some ("a", some "b"); sslmode = "" }

abbrev pub empty_secret : DatabaseSecret
empty_secret = record {
  db_host = "";
  db_port = pos 0;
  db_name = "";
  db_username = "";
  db_password = "";
  database_url = "";
  engine = "";
}

abbrev pub with_reply : (Calls → (c : Call) → Result (Reply c)) → World
with_reply reply = record {
  reply = reply;
  parse_url = λ s. ok url;
  query_escape = λ s. s;
  marshal = λ m. ok "{}";
  unmarshal_secret = λ s. ok empty_secret;
  unmarshal_map = λ s. ok [];
  unmarshal_any = λ s. ok (World.text s);
  parse_template = λ s. ok (λ value. ok s);
}

abbrev pub fresh : World
fresh = with_reply fresh_reply

-- The same, but secrets cannot be deleted.
abbrev pub denied : GoError
denied = plain "AccessDenied"

abbrev denied_reply : Calls → (c : Call) → Result (Reply c)
denied_reply calls (World.delete_secret _ _ _ _) = err denied
denied_reply calls c = fresh_reply calls c

abbrev pub denying : World
denying = with_reply denied_reply

abbrev pub spec : DatabaseSpec
spec = record {
  engine = "postgres";
  database_name = "shop";
  connection_string_secret_ref = some (record { name = "admin"; key = "" });
  connection_string_aws_secret_ref = none;
  username = "";
  secret_name = "";
  privileges = [];
  retain_on_delete = some false;
  aws_secrets_manager = some (record { region = "eu-west-1"; description = ""; tags = [] });
  secret_template = "";
}

abbrev pub empty_status : DatabaseStatus
empty_status = record {
  phase = "";
  observed_generation = 0;
  message = "";
  database_created = false;
  user_created = false;
  secret_created = false;
  secret_arn = "";
  secret_version = "";
  secret_format_version = "";
  actual_username = "";
  actual_secret_name = "";
  secret_region = "";
  connection_info = record { host = ""; port = pos 0; database = ""; username = ""; engine = "" };
}

abbrev pub metadata : ObjectMeta
metadata = record {
  name = "shop";
  namespace = "default";
  generation = 1;
  deleted = false;
  finalizers = "database.opzkit.io/database-finalizer" ∷ [];
}

-- A new object with the finalizer.
abbrev pub new_database : Database
new_database = record { metadata = metadata; spec = spec; status = empty_status }

-- The same object with the secret in another region.
abbrev pub moved_database : Database
moved_database = record new_database {
  status = record empty_status { secret_region = "us-east-1" };
}

abbrev pub new_state : State
new_state = record { db = new_database; calls = [] }

-- The same object, kept when it is deleted, without the finalizer, and with tags.
abbrev pub retained_database : Database
retained_database = record new_database { spec = record spec { retain_on_delete = none } }

abbrev pub bare_state : State
bare_state = record new_state {
  db = record new_database { metadata = record metadata { finalizers = [] } };
}

abbrev pub tagged_database : Database
tagged_database = record new_database {
  spec = record spec {
    aws_secrets_manager =
        some (record { region = "eu-west-1"; description = ""; tags = ("team", "shop") ∷ [] });
  };
}

-- An object whose region AWS resolves, and whose secret is there.
abbrev resolving_reply : Calls → (c : Call) → Result (Reply c)
resolving_reply calls (World.load_config _) = ok "eu-west-1"
resolving_reply calls c = fresh_reply calls c

abbrev pub resolving : World
resolving = with_reply resolving_reply

abbrev pub regionless_database : Database
regionless_database = record new_database {
  spec = record spec { aws_secrets_manager = none };
  status = record empty_status { secret_region = "eu-west-1" };
}

abbrev pub sourceless_database : Database
sourceless_database = record new_database {
  spec = record spec { connection_string_secret_ref = none };
}
