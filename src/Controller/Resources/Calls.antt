-- ===== src/Controller/Resources/Calls.antt =====
-- The kinds of calls of reconcileDatabase.
use database_user_operator.Base.{String, ℤ}
use database_user_operator.World.{World}
use database_user_operator.Effects.{Calls}
use database_user_operator.Effects.Keeps.{Keeps, keeps_rules}
use database_user_operator.Effects.Avoids.{
  Avoids, Keeps-perform, Kind, by_kind, kube, sql, session, object, Ignores, Ignores-Avoids,
}
use database_user_operator.Effects.Avoids
use database_user_operator.Api.{Database, DatabaseStatus}
use database_user_operator.Database.Connection.{ConnectionInfo}
use database_user_operator.Database.Client
use database_user_operator.Database.Client.{Client}
use database_user_operator.Database.Client.Calls.{
  new_client-Keeps, close-Keeps, database_exists-Keeps, user_exists-Keeps, create_database-Keeps,
  grant_all_privileges-Keeps, create_user-Keeps, generate_password-Keeps,
}
use database_user_operator.Secrets.Client.{AwsClient}
use database_user_operator.Secrets.Client.Calls.{
  new_aws_client-Keeps, secret_exists-Keeps, get_secret-Keeps,
}
use database_user_operator.Controller.State.{effect}
use database_user_operator.Controller.Calls.{
  Trace, effect-Trace, step_rules, sync_tags-Keeps, get_connection_string-Keeps,
}
use database_user_operator.Controller.Store.{store_credentials_in_aws}
use database_user_operator.Controller.Store.Laws.{store_secret-Keeps}
use database_user_operator.Controller.Resources.{
  Found, Decision, adopt, recover, create, migrate_password, adopt_existing,
  password_from_old_region, recover_password, create_missing, password_for, look_up,
  ensure_resources, store_with, reconcile_with, reconcile_needed, reconcile_database,
}

module _ (w : World) (P : Calls → Type 0) (h : Ignores P Avoids.secret) where
  pub migrate_password-Keeps : (db : Database) → Keeps P (migrate_password w db)
  unfolding migrate_password
  migrate_password-Keeps db = search (keeps_rules, new_aws_client-Keeps, get_secret-Keeps) depth 10

  pub adopt_existing-Keeps :
      (c : AwsClient) (name : String) (db : Database) → Keeps P (adopt_existing w c name db)
  unfolding adopt_existing
  adopt_existing-Keeps c name db = search (keeps_rules, get_secret-Keeps, sync_tags-Keeps) depth 10

  from_old_region-Keeps :
      (region : String) (status : DatabaseStatus)
      → Keeps P (password_from_old_region w region status)
  unfolding password_from_old_region
  from_old_region-Keeps region status =
      search (keeps_rules, new_aws_client-Keeps, secret_exists-Keeps, get_secret-Keeps) depth 12

  pub recover_password-Keeps :
      (f : Found) (region : String) (status : DatabaseStatus)
      → Keeps P (recover_password w f region status)
  unfolding recover_password
  recover_password-Keeps f region status = search (keeps_rules, from_old_region-Keeps)

module _ (w : World) (P : Calls → Type 0) (h : Ignores P Avoids.secret) (v : Ignores P Avoids.write)
    (d : Ignores P Avoids.delete) where
  pub store_credentials-Trace :
      (username password : String) (info : ConnectionInfo) (port : ℤ)
      → Keeps (Trace P) (store_credentials_in_aws w username password info port)
  unfolding store_credentials_in_aws
  store_credentials-Trace username password info port =
      search (step_rules, store_secret-Keeps) depth 10

module _ (w : World) (P : Calls → Type 0) (h : Ignores P Avoids.secret) (q : Ignores P sql)
    (k : Ignores P kube) where
  pub look_up-Keeps :
      (dc : Client) (db : Database) (username : String) → Keeps P (look_up w dc db username)
  unfolding look_up
  look_up-Keeps dc db username =
      search
        (
          keeps_rules, user_exists-Keeps, database_exists-Keeps, new_aws_client-Keeps,
          secret_exists-Keeps,
        )
        depth 14

  module _ (p : Ignores P Avoids.password) where
    create_missing-Trace :
        (dc : Client) (f : Found) (username : String)
        → Keeps (Trace P) (create_missing w dc f username)
    unfolding create_missing
    create_missing-Trace dc f username =
        search (step_rules, generate_password-Keeps, create_user-Keeps, create_database-Keeps) depth
          16

    password_for-Trace :
        (dc : Client) (c : AwsClient) (f : Found) (d : Decision) (username name : String)
        → Keeps (Trace P) (password_for w dc c f d username name)
    unfolding password_for
    password_for-Trace dc c f adopt username name =
        search (step_rules, adopt_existing-Keeps) depth 10
    password_for-Trace dc c f recover username name =
        search (step_rules, recover_password-Keeps) depth 10
    password_for-Trace dc c f create username name = create_missing-Trace dc f username

    ensure_resources-Trace :
        (dc : Client) (username : String) → Keeps (Trace P) (ensure_resources w dc username)
    unfolding ensure_resources
    ensure_resources-Trace dc username =
        search (step_rules, look_up-Keeps, password_for-Trace) depth 10

    module _ (v : Ignores P Avoids.write) (d : Ignores P Avoids.delete)
        (g : (dc : Client) (name username : String)
          → Keeps P (Client.grant_all_privileges w dc name username)) where
      store_with-Trace :
          (dc : Client) (db : Database) (username password : String)
          → Keeps (Trace P) (store_with w dc db username password)
      unfolding store_with
      store_with-Trace dc db username password =
          search (step_rules, g, store_credentials-Trace) depth 10

      pub reconcile_with-Trace : (dc : Client) → Keeps (Trace P) (reconcile_with w dc)
      unfolding reconcile_with
      reconcile_with-Trace dc =
          search (step_rules, migrate_password-Keeps, ensure_resources-Trace, store_with-Trace)
            depth 10

    module _ (v : Ignores P Avoids.write) (d : Ignores P Avoids.delete)
        (o : Ignores P session) where
      close-Trace : (dc : Client) → Keeps {A = Unit} (Trace P) (effect (Client.close w dc))
      close-Trace dc = effect-Trace P (Client.close w dc) (close-Keeps w P q o dc)

      with-Trace : (dc : Client) → Keeps (Trace P) (reconcile_with w dc)
      with-Trace = reconcile_with-Trace v d (grant_all_privileges-Keeps w P q o)

      reconcile_needed-Trace : Keeps (Trace P) (reconcile_needed w)
      unfolding reconcile_needed
      reconcile_needed-Trace =
          search
            (step_rules, get_connection_string-Keeps, new_client-Keeps, with-Trace, close-Trace)
            depth 12

      pub reconcile_database-Trace : Keeps (Trace P) (reconcile_database w)
      unfolding reconcile_database
      reconcile_database-Trace = search (step_rules, reconcile_needed-Trace) depth 8
