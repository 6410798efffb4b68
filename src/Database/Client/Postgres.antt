-- ===== src/Database/Client/Postgres.antt =====
-- The methods of PostgresClient, internal/database/postgres.go.
use database_user_operator.Base.{Bool, String, ◌<>◌, List, [], ◌∷◌, if◌then◌else◌}
use database_user_operator.World
use database_user_operator.World.{
  World, Handle, Statement, postgres_driver, sql_open, sql_ping, sql_close, sql_exec, sql_query,
}
use database_user_operator.Effects.{
  Effect, pure, lift, attempt, wrap, finally, ◌>>=◌, ◌>>◌, perform,
}
use database_user_operator.Database.Sql.{PostgresStatement}
use database_user_operator.Database.Connection.{ConnectionInfo, parse_connection_string}
use database_user_operator.Database.Client.Connect.{Session, exec, connect}

abbrev pub run : World → Handle → PostgresStatement → String → Effect Unit
run w db statement = exec w db (World.postgres statement)

module _ (w : World) where
  -- NewPostgresClient
  unfoldable pub new_session : String → Effect Session
  new_session connection_string = do
    info ← lift (parse_connection_string w connection_string)
    connect w (record { driver = postgres_driver; dsn = connection_string }) info

  unfoldable pub database_exists : Session → String → Effect Bool
  database_exists s name =
      wrap "failed to check if database exists"
        (perform w (sql_query s.db (World.database_exists name)))

  unfoldable pub create_database : Session → (name owner : String) → Effect Unit
  create_database s name owner = do
    exists ← database_exists s name
    if exists then pure tt else do
      run w s.db (PostgresStatement.create_database name owner) "failed to create database"
      run w s.db (PostgresStatement.comment_on_database name) "failed to add comment to database"

  unfoldable pub drop_database : Session → String → Effect Unit
  drop_database s name = do
    run w s.db (PostgresStatement.terminate_connections name) "failed to terminate connections"
    run w s.db (PostgresStatement.drop_database name) "failed to drop database"

  unfoldable pub user_exists : Session → String → Effect Bool
  user_exists s username =
      wrap "failed to check if user exists"
        (perform w (sql_query s.db (World.user_exists username)))

  -- The user that CREATE USER adds is granted to the administrator, who may then name it as owner.
  unfoldable pub add_user : Session → (username password : String) → Effect Unit
  add_user s username password = do
    run w s.db (PostgresStatement.create_user username password) "failed to create user"
    run w s.db (PostgresStatement.grant_to_current_user username) "failed to grant user to admin"

  unfoldable pub create_user : Session → (username password : String) → Effect Unit
  create_user s username password = do
    exists ← user_exists s username
    if exists
        then run w s.db (PostgresStatement.alter_user username password)
            "failed to update user password"
        else add_user s username password
    run w s.db (PostgresStatement.comment_on_role username) "failed to add comment to role"

  -- The error of the first statement is dropped.
  unfoldable pub drop_user : Session → String → Effect Unit
  drop_user s username = do
    attempt (perform w (sql_exec s.db (World.postgres (PostgresStatement.revoke_all username))))
    run w s.db (PostgresStatement.drop_user username) "failed to drop user"

  -- The connection string for the database on which privileges are granted.
  unfoldable pub target_dsn : ConnectionInfo → String → String
  target_dsn info name =
      "postgres://"
      <> (w.query_escape info.username
          <> (":"
              <> (w.query_escape info.password
                  <> ("@"
                      <> (info.host
                          <> (":"
                              <> (info.port
                                  <> ("/" <> (name <> ("?sslmode=" <> info.ssl_mode))))))))))

  -- The statements of GrantPrivileges, of which the first goes through the client's connection.
  unfoldable pub grants : Session → Handle → (username name : String) → List String → Effect Unit
  grants s target username name privileges = do
    wrap "failed to ping target database" (perform w (sql_ping target))
    run w s.db (PostgresStatement.grant_on_database privileges name username)
        "failed to grant database privileges"
    run w target (PostgresStatement.grant_on_schema username) "failed to grant schema privileges"
    run w target (PostgresStatement.grant_on_tables username) "failed to grant table privileges"
    run w target (PostgresStatement.alter_default_privileges username)
        "failed to grant default privileges"

  unfoldable pub grant_privileges : Session → (username name : String) → List String → Effect Unit
  grant_privileges s username name privileges =
      let target : Handle = record {
        driver = postgres_driver;
        dsn = target_dsn s.conn_info name;
      } in
      do
        wrap "failed to connect to target database" (perform w (sql_open target))
        finally (grants s target username name privileges) (perform w (sql_close target))

  unfoldable pub grant_all_privileges : Session → (name username : String) → Effect Unit
  grant_all_privileges s name username = grant_privileges s username name ("ALL" ∷ [])

  unfoldable pub set_password : Session → (username password : String) → Effect Unit
  set_password s username password =
      run w s.db (PostgresStatement.alter_user username password) "failed to set password"
