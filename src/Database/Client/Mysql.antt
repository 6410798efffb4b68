-- ===== src/Database/Client/Mysql.antt =====
-- The methods of MySQLClient, internal/database/mysql.go.
use database_user_operator.Base.{Bool, String, ltb, if◌then◌else◌, starts_with}
use database_user_operator.World
use database_user_operator.World.{World, Handle, mysql_driver, sql_query}
use database_user_operator.Effects.{Effect, pure, lift, wrap, ◌>>=◌, ◌>>◌, perform}
use database_user_operator.Database.Sql.{MysqlStatement}
use database_user_operator.Database.Connection.{parse_mysql_connection_string, mysql_dsn}
use database_user_operator.Database.Client.Connect.{Session, exec, connect}

abbrev pub run : World → Handle → MysqlStatement → String → Effect Unit
run w db statement = exec w db (World.mysql statement)

module _ (w : World) where
  -- convertMySQLURLToDSN
  unfoldable pub dsn_of_url : String → Effect String
  dsn_of_url s = do info ← lift (parse_mysql_connection_string w s); pure (mysql_dsn info)

  -- NewMySQLClient: a URL is rewritten as a DSN.
  unfoldable pub new_session : String → Effect Session
  new_session s = do
    info ← lift (parse_mysql_connection_string w s)
    dsn ← if starts_with s "mysql://" then dsn_of_url s else pure s
    connect w (record { driver = mysql_driver; dsn = dsn }) info

  unfoldable pub create_user : Session → (username password : String) → Effect Unit
  create_user s username password =
      run w s.db (MysqlStatement.create_user username password) "failed to create user"

  unfoldable pub user_exists : Session → String → Effect Bool
  user_exists s username = do
    count ←
        wrap "failed to check if user exists"
          (perform w (sql_query s.db (World.user_count username)))
    pure (ltb 0 count)

  unfoldable pub drop_user : Session → String → Effect Unit
  drop_user s username = run w s.db (MysqlStatement.drop_user username) "failed to drop user"

  -- The owner is ignored.
  unfoldable pub create_database : Session → (name owner : String) → Effect Unit
  create_database s name owner =
      run w s.db (MysqlStatement.create_database name) "failed to create database"

  unfoldable pub database_exists : Session → String → Effect Bool
  database_exists s name = do
    count ←
        wrap "failed to check if database exists"
          (perform w (sql_query s.db (World.database_count name)))
    pure (ltb 0 count)

  unfoldable pub drop_database : Session → String → Effect Unit
  drop_database s name = run w s.db (MysqlStatement.drop_database name) "failed to drop database"

  unfoldable pub grant_all_privileges : Session → (name username : String) → Effect Unit
  grant_all_privileges s name username = do
    run w s.db (MysqlStatement.grant_all name username) "failed to grant privileges"
    run w s.db MysqlStatement.flush_privileges "failed to flush privileges"

  unfoldable pub set_password : Session → (username password : String) → Effect Unit
  set_password s username password = do
    run w s.db (MysqlStatement.alter_user username password) "failed to set password"
    run w s.db MysqlStatement.flush_privileges "failed to flush privileges"
