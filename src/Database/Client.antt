-- ===== src/Database/Client.antt =====
-- The interface Client of internal/database/interface.go, whose methods go to one of the two
-- implementations, and NewClient of internal/database/factory.go.
pub mod Connect
pub mod Postgres
pub mod Mysql
pub mod Calls
pub mod Handles
pub mod Balance
pub mod Given
pub mod Dropped
pub mod Granting
use database_user_operator.Base.{
  ℕ, Bool, true, false, String, ◌<>◌, ◌||◌, if◌then◌else◌, same, codes, to_lower, GoError, plain,
  Result, ok, err,
}
use database_user_operator.World.{World, Handle, sql_close, read_random}
use database_user_operator.Effects.{Effect, pure, fail, wrap, ◌>>=◌, perform}
use database_user_operator.Database.Connection.{ConnectionInfo}
use database_user_operator.Database.Password.{password_length, password_of}
use Connect.{Session}
use Postgres
use Mysql

-- A value of the interface: one of the implementations, each with its fields db and connInfo.
pub data Client : Type 0 where
  postgres_client : Session → Client
  mysql_client : Session → Client

-- The engine is written like this word, in any case of its letters.
unfoldable pub is_engine : String → String → Bool
unfolding same codes to_lower
is_engine engine word = same (to_lower engine) (codes word)

-- GetConnectionInfo
unfoldable pub get_connection_info : Client → ConnectionInfo
get_connection_info (postgres_client s) = s.conn_info
get_connection_info (mysql_client s) = s.conn_info

module _ (w : World) where
  unfoldable pub new_client : (engine connection_string : String) → Effect Client
  new_client engine connection_string =
      if is_engine engine "postgres" || is_engine engine "postgresql"
      then (do s ← Postgres.new_session w connection_string; pure (postgres_client s))
      else if is_engine engine "mysql" || is_engine engine "mariadb"
      then (do s ← Mysql.new_session w connection_string; pure (mysql_client s))
      else fail (plain ("unsupported database engine: " <> engine))

  unfoldable pub close : Client → Effect Unit
  close (postgres_client s) = perform w (sql_close s.db)
  close (mysql_client s) = perform w (sql_close s.db)

  unfoldable pub create_user : Client → (username password : String) → Effect Unit
  create_user (postgres_client s) = Postgres.create_user w s
  create_user (mysql_client s) = Mysql.create_user w s

  unfoldable pub user_exists : Client → (username : String) → Effect Bool
  user_exists (postgres_client s) = Postgres.user_exists w s
  user_exists (mysql_client s) = Mysql.user_exists w s

  unfoldable pub drop_user : Client → (username : String) → Effect Unit
  drop_user (postgres_client s) = Postgres.drop_user w s
  drop_user (mysql_client s) = Mysql.drop_user w s

  unfoldable pub create_database : Client → (name owner : String) → Effect Unit
  create_database (postgres_client s) = Postgres.create_database w s
  create_database (mysql_client s) = Mysql.create_database w s

  unfoldable pub database_exists : Client → (name : String) → Effect Bool
  database_exists (postgres_client s) = Postgres.database_exists w s
  database_exists (mysql_client s) = Mysql.database_exists w s

  unfoldable pub drop_database : Client → (name : String) → Effect Unit
  drop_database (postgres_client s) = Postgres.drop_database w s
  drop_database (mysql_client s) = Mysql.drop_database w s

  unfoldable pub grant_all_privileges : Client → (name username : String) → Effect Unit
  grant_all_privileges (postgres_client s) = Postgres.grant_all_privileges w s
  grant_all_privileges (mysql_client s) = Mysql.grant_all_privileges w s

  unfoldable pub set_password : Client → (username password : String) → Effect Unit
  set_password (postgres_client s) = Postgres.set_password w s
  set_password (mysql_client s) = Mysql.set_password w s

  -- GeneratePassword of internal/database/postgres.go
  unfoldable pub generate_password : ℕ → Effect String
  generate_password length = do
    bytes ←
        wrap "failed to generate random password" (perform w (read_random (password_length length)))
    pure (password_of (password_length length) bytes)
