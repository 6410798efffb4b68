-- ===== src/Controller/Resources.antt =====
-- reconcileDatabase of internal/controller/database_controller.go.
pub mod Laws
pub mod Password
pub mod Calls
pub mod Balance
pub mod Ready
pub mod Agreement
pub mod Credentials
pub mod Object
pub mod Adopt
use database_user_operator.Base.{
  Bool, true, false, not, ◌&&◌, ◌||◌, String, ◌<>◌, ◌==◌, if◌then◌else◌, GoError, plain, wrapped,
  Result, ok, err, atoi,
}
use database_user_operator.World.{World, DatabaseSecret}
use database_user_operator.Effects.{Effect, pure, fail, lift, attempt, wrap, finally, ◌>>=◌, ◌>>◌}
use database_user_operator.Api.{Database, DatabaseStatus}
use database_user_operator.Database.Client
use database_user_operator.Database.Client.{Client}
use database_user_operator.Secrets.Region.{validate_region}
use database_user_operator.Secrets.Client.{AwsClient, new_aws_client, secret_exists, get_secret}
use database_user_operator.Controller.State.{State, Step, effect, current, modify_status}
use database_user_operator.Controller.Spec.{
  current_secret_format_version, needs_reconciliation, get_region, get_username_or_default,
  get_secret_name_or_default,
}
use database_user_operator.Controller.Source.{get_connection_string}
use database_user_operator.Controller.Tags.{desired_tags, sync_tags}
use database_user_operator.Controller.Store.{region_changed, store_credentials_in_aws}

-- Which resources were found.
pub record Found : Type 0 where
  pub user : Bool
  pub database : Bool
  pub secret : Bool

-- The branches of the decision on what was found.
pub data Decision : Type 0 where
  adopt recover create : Decision

unfoldable pub decide : Found → Decision
decide f =
    if f.database && f.user && f.secret
    then adopt
    else if (f.database || f.user) && not f.secret
    then recover
    else create

-- Only the format of the secret is out of date.
unfoldable pub is_migration : DatabaseStatus → Bool
is_migration status =
    not (status.secret_format_version == current_secret_format_version)
    && status.user_created
    && status.database_created
    && status.secret_created

-- The password of a secret, which must not be empty.
unfoldable pub password_in : DatabaseSecret → (message : String) → Result String
password_in secret message =
    if secret.db_password == "" then err (plain message) else ok secret.db_password

abbrev please : String
please =
    "Please delete the Database CR and recreate it, or manually create the secret with the correct password"

abbrev show : Bool → String
show true = "true"
show false = "false"

unfoldable pub unrecoverable : Found → GoError
unrecoverable f = plain (
    "database and/or user exist but secret is missing - cannot recover password (database exists: "
    <> (show f.database
        <> (", user exists: "
            <> (show f.user <> (", secret exists: " <> (show f.secret <> ("). " <> please)))))))

unfoldable pub lost_secret : (old_region new_region : String) → GoError
lost_secret old_region new_region = plain (
    "region changed from "
    <> (old_region
        <> (" to "
            <> (new_region
                <> (" but secret not found in old region - cannot recover password. " <> please)))))

module _ (w : World) where
  -- The password is read from the secret that has the old format.
  unfoldable pub migrate_password : Database → Effect String
  migrate_password db = do
    let region = get_region db
    wrap "invalid AWS region for password retrieval" (lift (validate_region region))
    c ← wrap "failed to create AWS client for password retrieval" (new_aws_client w region)
    secret ←
        wrap "failed to retrieve existing secret for migration"
          (get_secret w c db.status.actual_secret_name)
    lift (password_in secret "could not extract password from existing secret for migration")

  -- All three resources exist: the password is read and the tags are set.
  unfoldable pub adopt_existing : AwsClient → (secret_name : String) → Database → Effect String
  adopt_existing c secret_name db = do
    secret ← wrap "failed to retrieve existing secret" (get_secret w c secret_name)
    password ← lift (password_in secret "could not extract password from existing secret")
    sync_tags w c secret_name (desired_tags db)
    pure password

  -- The password is read from the secret in the region that the status names.
  unfoldable pub password_from_old_region : (region : String) → DatabaseStatus → Effect String
  password_from_old_region region status = do
    let old = status.secret_region
    c ← wrap ("failed to create AWS client for old region (" <> (old <> ")")) (new_aws_client w old)
    exists ←
        wrap "failed to check if secret exists in old region"
          (secret_exists w c status.actual_secret_name)
    if exists
        then (do
          secret ←
              wrap ("failed to retrieve secret from old region (" <> (old <> ")"))
                (get_secret w c status.actual_secret_name)
          lift (password_in secret "could not extract password from secret in old region"))
        else fail (lost_secret old region)

  -- The database or the user exists without the secret.
  unfoldable pub recover_password : Found → (region : String) → DatabaseStatus → Effect String
  unfolding region_changed
  recover_password f region status =
      if region_changed status region && not (status.actual_secret_name == "")
      then password_from_old_region region status
      else fail (unrecoverable f)

  -- What is missing is created. The status is set behind each step that did not fail.
  unfoldable pub create_missing : Client → Found → (username : String) → Step String
  create_missing dc f username = do
    db ← current
    password ← effect (Client.generate_password w 32)
    effect (if f.user then pure tt else Client.create_user w dc username password)
    modify_status (λ s. record s { user_created = true; actual_username = username })
    effect
        (if f.database then pure tt else Client.create_database w dc db.spec.database_name username)
    modify_status (λ s. record s { database_created = true })
    pure password

  unfoldable pub password_for :
      Client → AwsClient → Found → Decision → (username secret_name : String) → Step String
  password_for dc c f adopt username secret_name = do
    db ← current
    password ← effect (adopt_existing c secret_name db)
    modify_status (λ s. record s {
      user_created = true;
      database_created = true;
      secret_created = true;
      actual_username = username;
      actual_secret_name = secret_name;
    })
    pure password
  password_for dc c f recover username secret_name = do
    db ← current
    password ← effect (recover_password f c.region db.status)
    modify_status (λ s. record s {
      user_created = true;
      database_created = true;
      actual_username = username;
      actual_secret_name = secret_name;
    })
    pure password
  password_for dc c f create username secret_name = create_missing dc f username

  -- Whether the user, the database and the secret exist.
  unfoldable pub look_up : Client → Database → (username : String) → Effect (Found × AwsClient)
  look_up dc db username = do
    user ← wrap "failed to check if user exists" (Client.user_exists w dc username)
    database ←
        wrap "failed to check if database exists"
          (Client.database_exists w dc db.spec.database_name)
    wrap "invalid AWS region" (lift (validate_region (get_region db)))
    c ← wrap "failed to create AWS client" (new_aws_client w (get_region db))
    secret ←
        wrap "failed to check if secret exists" (secret_exists w c (get_secret_name_or_default db))
    pure (record { user = user; database = database; secret = secret }, c)

  unfoldable pub ensure_resources : Client → (username : String) → Step String
  unfolding decide
  ensure_resources dc username = do
    db ← current
    found ← effect (look_up dc db username)
    password_for dc found.1 found.0 (decide found.0) username (get_secret_name_or_default db)

  -- The rights are granted, and the credentials are stored. The privileges of the spec are only
  -- logged.
  unfoldable pub store_with : Client → Database → (username password : String) → Step Unit
  store_with dc db username password = do
    modify_status (λ s. record s {
      actual_username = if s.actual_username == "" then username else s.actual_username;
    })
    effect (Client.grant_all_privileges w dc db.spec.database_name username)
    let info = Client.get_connection_info dc
    store_credentials_in_aws w username password info (atoi info.port)

  -- The work with an open database client.
  unfoldable pub reconcile_with : Client → Step Unit
  unfolding is_migration
  reconcile_with dc = do
    db ← current
    let username = get_username_or_default db
    password ←
        if is_migration db.status
        then effect (migrate_password db)
        else ensure_resources dc username
    store_with dc db username password

  unfoldable pub reconcile_needed : Step Unit
  reconcile_needed = do
    db ← current
    connection_string ← effect (get_connection_string w db)
    dc ← effect (Client.new_client w db.spec.engine connection_string)
    finally (reconcile_with dc) (effect (Client.close w dc))

  unfoldable pub reconcile_database : Step Unit
  reconcile_database = do
    db ← current
    if needs_reconciliation db then reconcile_needed else pure tt
