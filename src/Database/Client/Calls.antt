-- ===== src/Database/Client/Calls.antt =====
-- The kinds of calls that the methods of the database clients make.
use database_user_operator.Base.{Result, ok, err, String, List, ℕ}
use database_user_operator.World
use database_user_operator.World.{
  World, Handle, Statement, postgres, mysql, sql_exec, sql_open, sql_ping, sql_close, sql_query,
}
use database_user_operator.Effects.{Calls, perform}
use database_user_operator.Effects.Keeps.{Keeps, Keeps-wrap, keeps_rules}
use database_user_operator.Effects.Avoids
use database_user_operator.Effects.Avoids.{
  Ignores, Keeps-perform, Kind, kind, kube, sql, session, password,
}
use database_user_operator.Database.Sql.{PostgresStatement}
use database_user_operator.Database.Connection.{ConnectionInfo}
use database_user_operator.Database.Client
use database_user_operator.Database.Client.{Client, postgres_client, mysql_client}
use database_user_operator.Database.Client.Connect.{Session, exec, pinged, connect}
use database_user_operator.Database.Client.Postgres
use database_user_operator.Database.Client.Mysql

module _ (w : World) (P : Calls → Type 0) where
  pub exec-Keeps :
      (db : Handle) (s : Statement) (prefix : String)
      → Ignores P (kind (sql_exec db s))
      → Keeps P (exec w db s prefix)
  unfolding exec
  exec-Keeps db s prefix h = Keeps-wrap prefix _ (Keeps-perform w (sql_exec db s) h)

-- The calls that return nothing, each by itself: a rule at any call does not fit their type.
module _ (w : World) (P : Calls → Type 0) (h : Ignores P sql) where
  ping-Keeps : (db : Handle) → Keeps {A = Unit} P (perform w (sql_ping db))
  ping-Keeps db = Keeps-perform w (sql_ping db) h

  postgres_exists-Keeps :
      (s : Session) (name : String) → Keeps P (Postgres.database_exists w s name)
  unfolding Postgres.database_exists
  postgres_exists-Keeps s name =
      Keeps-wrap _ _ (Keeps-perform w (sql_query s.db (World.database_exists name)) h)

  pub database_exists-Keeps :
      (dc : Client) (name : String) → Keeps P (Client.database_exists w dc name)
  unfolding Client.database_exists Mysql.database_exists
  database_exists-Keeps (postgres_client s) name = postgres_exists-Keeps s name
  database_exists-Keeps (mysql_client s) name = search (keeps_rules, Keeps-perform)

  pub postgres_user_exists-Keeps :
      (s : Session) (name : String) → Keeps P (Postgres.user_exists w s name)
  unfolding Postgres.user_exists
  postgres_user_exists-Keeps s name =
      Keeps-wrap _ _ (Keeps-perform w (sql_query s.db (World.user_exists name)) h)

  pub user_exists-Keeps : (dc : Client) (name : String) → Keeps P (Client.user_exists w dc name)
  unfolding Client.user_exists Mysql.user_exists
  user_exists-Keeps (postgres_client s) name = postgres_user_exists-Keeps s name
  user_exists-Keeps (mysql_client s) name = search (keeps_rules, Keeps-perform)

  pub create_database-Keeps :
      (dc : Client) (name owner : String) → Keeps P (Client.create_database w dc name owner)
  unfolding Client.create_database Postgres.create_database Mysql.create_database
  create_database-Keeps (postgres_client s) name owner =
      search (keeps_rules, postgres_exists-Keeps, exec-Keeps) depth 8
  create_database-Keeps (mysql_client s) name owner = search (keeps_rules, exec-Keeps)

  pub create_user-Keeps :
      (dc : Client) (username password : String)
      → Ignores P Avoids.password
      → Keeps P (Client.create_user w dc username password)
  unfolding Client.create_user Postgres.create_user Postgres.add_user Mysql.create_user
  create_user-Keeps (postgres_client s) username secret k =
      search (keeps_rules, postgres_user_exists-Keeps, exec-Keeps) depth 10
  create_user-Keeps (mysql_client s) username secret k = search (keeps_rules, exec-Keeps)

  pub grants-Keeps :
      (s : Session) (target : Handle) (username name : String) (privileges : List String)
      → Keeps P (Postgres.grants w s target username name privileges)
  unfolding Postgres.grants
  grants-Keeps s target username name privileges =
      search (keeps_rules, ping-Keeps, exec-Keeps) depth 10

  module _ (o : Ignores P session) where
    open-Keeps : (db : Handle) → Keeps {A = Unit} P (perform w (sql_open db))
    open-Keeps db = Keeps-perform w (sql_open db) o

    hang_up-Keeps : (db : Handle) → Keeps {A = Unit} P (perform w (sql_close db))
    hang_up-Keeps db = Keeps-perform w (sql_close db) o

    pinged-Keeps : (db : Handle) (r : Result (Unit {0})) → Keeps P (pinged w db r)
    unfolding pinged
    pinged-Keeps db (ok _) = search keeps_rules
    pinged-Keeps db (err e) = search (keeps_rules, hang_up-Keeps)

    pub connect-Keeps : (db : Handle) (info : ConnectionInfo) → Keeps P (connect w db info)
    unfolding connect
    connect-Keeps db info = search (keeps_rules, open-Keeps, ping-Keeps, pinged-Keeps) depth 8

    pub new_client-Keeps : (engine s : String) → Keeps P (Client.new_client w engine s)
    unfolding Client.new_client Postgres.new_session Mysql.new_session Mysql.dsn_of_url
    new_client-Keeps engine s = search (keeps_rules, connect-Keeps) depth 12

    pub close-Keeps : (dc : Client) → Keeps P (Client.close w dc)
    unfolding Client.close
    close-Keeps (postgres_client s) = Keeps-perform w (sql_close s.db) o
    close-Keeps (mysql_client s) = Keeps-perform w (sql_close s.db) o

    pub grant_all_privileges-Keeps :
        (dc : Client) (name username : String)
        → Keeps P (Client.grant_all_privileges w dc name username)
    unfolding Client.grant_all_privileges Postgres.grant_all_privileges Postgres.grant_privileges
        Mysql.grant_all_privileges
    grant_all_privileges-Keeps (postgres_client s) name username =
        search (keeps_rules, open-Keeps, hang_up-Keeps, grants-Keeps) depth 8
    grant_all_privileges-Keeps (mysql_client s) name username = search (keeps_rules, exec-Keeps)

module _ (w : World) (P : Calls → Type 0) (h : Ignores P kube) where
  pub generate_password-Keeps : (n : ℕ) → Keeps P (Client.generate_password w n)
  unfolding Client.generate_password
  generate_password-Keeps n = search (keeps_rules, Keeps-perform)

module _ (w : World) (P : Calls → Type 0) (h : Ignores P sql) (k : Ignores P Avoids.drop) where
  revoke-Keeps :
      (db : Handle) (username : String)
      → Keeps {A = Unit} P
          (perform w (sql_exec db (postgres (PostgresStatement.revoke_all username))))
  revoke-Keeps db username = Keeps-perform w (sql_exec db _) h

  pub drop_database-Keeps : (dc : Client) (name : String) → Keeps P (Client.drop_database w dc name)
  unfolding Client.drop_database Postgres.drop_database Mysql.drop_database
  drop_database-Keeps (postgres_client s) name = search (keeps_rules, exec-Keeps)
  drop_database-Keeps (mysql_client s) name = search (keeps_rules, exec-Keeps)

  pub drop_user-Keeps : (dc : Client) (name : String) → Keeps P (Client.drop_user w dc name)
  unfolding Client.drop_user Postgres.drop_user Mysql.drop_user
  drop_user-Keeps (postgres_client s) name = search (keeps_rules, revoke-Keeps, exec-Keeps)
  drop_user-Keeps (mysql_client s) name = search (keeps_rules, exec-Keeps)
