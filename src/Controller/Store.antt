-- ===== src/Controller/Store.antt =====
-- storeCredentialsInAWS of internal/controller/database_controller.go.
pub mod Laws
pub mod DefaultRegion
pub mod Moved
pub mod Stored
use database_user_operator.Base.{
  ℤ, Bool, true, false, not, ◌&&◌, ◌||◌, Option, none, some, String, ◌<>◌, List, [], ◌∷◌, ◌==◌,
  if◌then◌else◌, same, GoError, plain, wrapped, Result, ok, err, Dict, codes, to_lower, decimal,
}
use database_user_operator.World.{World, DatabaseSecret}
use database_user_operator.Effects.{Effect, pure, fail, lift, attempt, wrap, ◌>>=◌, ◌>>◌}
use database_user_operator.Errors.{as_secret_not_found, as_secret_marked_for_deletion}
use database_user_operator.Api.{AwsSecretsManagerConfig, Database, DatabaseStatus}
use database_user_operator.Database.Connection.{ConnectionInfo}
use database_user_operator.Secrets.Region.{validate_region}
use database_user_operator.Secrets.Json.{is_postgres}
use database_user_operator.Secrets.Client.{
  AwsClient, new_aws_client, secret_exists, update_secret_with_template,
  create_secret_with_template, get_secret_arn, delete,
}
use database_user_operator.Controller.State.{State, Step, effect, current, modify_status}
use database_user_operator.Controller.Spec.{
  current_secret_format_version, get_region, get_secret_name_or_default,
}
use database_user_operator.Controller.Tags.{desired_tags, sync_tags}

-- The scheme of the URL that is stored.
unfoldable pub url_scheme : String → String
unfolding is_postgres same codes to_lower
url_scheme engine =
    if is_postgres engine
    then "postgresql"
    else if same (to_lower engine) (codes "mariadb")
    then "mysql"
    else engine

-- The description that is configured, or a default.
unfoldable pub configured_description : Option AwsSecretsManagerConfig → String → String
configured_description none default = default
configured_description (some c) default =
    if not (c.description == "") then c.description else default

-- The description of a secret that is created.
unfoldable pub secret_description : Database → String
unfolding configured_description
secret_description db =
    configured_description db.spec.aws_secrets_manager
      ("Database credentials for " <> db.spec.database_name)

-- The status names a region, and it is not this one.
unfoldable pub region_changed : DatabaseStatus → String → Bool
region_changed status region =
    not (status.secret_region == "") && not (status.secret_region == region)

-- How an update failed: the secret is gone, or about to go, and a new one is to be created.
unfoldable pub is_gone : GoError → Bool
is_gone e = as_secret_not_found e || as_secret_marked_for_deletion e

-- secretARN, _ = awsClient.GetSecretARN(…)
unfoldable pub or_empty : Result String → String
or_empty (ok s) = s
or_empty (err e) = ""

-- The status behind a secret that was stored.
unfoldable pub stored_status :
    Database
    → (username : String) → ConnectionInfo
    → ℤ
    → String × String × String
    → DatabaseStatus
    → DatabaseStatus
stored_status db username info port (arn, version, region) status = record status {
  secret_created = true;
  secret_arn = arn;
  secret_version = version;
  secret_format_version = current_secret_format_version;
  secret_region = region;
  connection_info = record {
    host = info.host;
    port = port;
    database = db.spec.database_name;
    username = username;
    engine = db.spec.engine;
  };
}

-- The spec names another region than the status. The region of the spec is compared before the
-- client resolves it.
unfoldable pub moves : Database → Bool
unfolding region_changed
moves db = region_changed db.status (get_region db)

module _ (w : World) where
  unfoldable pub database_url :
      Database → (username password : String) → ConnectionInfo → ℤ → String
  unfolding url_scheme
  database_url db username password info port =
      url_scheme db.spec.engine
      <> ("://"
          <> (w.query_escape username
              <> (":"
                  <> (w.query_escape password
                      <> ("@"
                          <> (info.host
                              <> (":" <> (decimal port <> ("/" <> db.spec.database_name)))))))))

  unfoldable pub secret_value :
      Database → (username password : String) → ConnectionInfo → ℤ → DatabaseSecret
  secret_value db username password info port = record {
    db_host = info.host;
    db_port = port;
    db_name = db.spec.database_name;
    db_username = username;
    db_password = password;
    database_url = database_url db username password info port;
    engine = db.spec.engine;
  }

  -- The look for the secret in its old region, whose result is only logged.
  unfoldable pub look_in_old_region : (changed exists : Bool) → (region name : String) → Effect Unit
  look_in_old_region changed exists region name =
      if changed && not exists
      then (do attempt (do c ← new_aws_client w region; secret_exists w c name); pure tt)
      else pure tt

  unfoldable pub create_new :
      AwsClient → Database → String → DatabaseSecret → Effect (String × String)
  unfolding secret_description
  create_new c db name value =
      create_secret_with_template w c name (secret_description db) value (desired_tags db)
        db.spec.secret_template

  -- Behind the update of a secret that exists: its ARN and version, or a new secret.
  unfoldable pub after_update :
      AwsClient → Database → String → DatabaseSecret → Result String → Effect (String × String)
  after_update c db name value (ok version) = do
    arn ← attempt (get_secret_arn w c name)
    pure (or_empty arn, version)
  after_update c db name value (err e) = if is_gone e then create_new c db name value else fail e

  unfoldable pub write_secret :
      AwsClient → Database → String → DatabaseSecret → (exists : Bool) → Effect (String × String)
  write_secret c db name value true = do
    version ← attempt (update_secret_with_template w c name value db.spec.secret_template)
    after_update c db name value version
  write_secret c db name value false = create_new c db name value

  -- The secret in the old region is deleted at once; an error is only logged.
  unfoldable pub delete_in_old_region : (changed : Bool) → (arn region name : String) → Effect Unit
  delete_in_old_region changed arn region name =
      if changed && not (arn == "")
      then (do attempt (do c ← new_aws_client w region; delete w c name true); pure tt)
      else pure tt

  -- The secret is written in the region of the spec, and its tags are set. The result is its ARN, its
  -- version and the region.
  unfoldable pub write_and_tag :
      Database → (name : String) → DatabaseSecret → Effect (String × String × String)
  write_and_tag db name value = do
    wrap "invalid AWS region" (lift (validate_region (get_region db)))
    c ←
        wrap
          "failed to create AWS Secrets Manager client for storing credentials (ensure pod has AWS permissions via IRSA, instance profile, or credentials)"
          (new_aws_client w (get_region db))
    exists ← secret_exists w c name
    look_in_old_region (moves db) exists db.status.secret_region name
    written ← write_secret c db name value exists
    sync_tags w c name (desired_tags db)
    pure (written.0, written.1, c.region)

  -- The calls of the function, between its first and its last changes of the status.
  unfoldable pub store_secret :
      Database → (name : String) → DatabaseSecret → Effect (String × String × String)
  store_secret db name value = do
    stored ← write_and_tag db name value
    delete_in_old_region (moves db) stored.0 db.status.secret_region name
    pure stored

  unfoldable pub store_credentials_in_aws :
      (username password : String) → ConnectionInfo → ℤ → Step Unit
  store_credentials_in_aws username password info port = do
    db ← current
    let name = get_secret_name_or_default db
    modify_status (λ status. record status { actual_secret_name = name })
    stored ← effect (store_secret db name (secret_value db username password info port))
    modify_status (stored_status db username info port stored)
