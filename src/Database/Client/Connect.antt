-- ===== src/Database/Client/Connect.antt =====
-- What NewPostgresClient and NewMySQLClient share: a connection is opened and tried.
use database_user_operator.Base.{String, wrapped, Result, ok, err}
use database_user_operator.World.{World, Handle, Statement, sql_open, sql_ping, sql_close, sql_exec}
use database_user_operator.Effects.{Effect, pure, fail, attempt, wrap, ◌>>=◌, ◌>>◌, perform}
use database_user_operator.Database.Connection.{ConnectionInfo}

-- The fields db and connInfo of a client.
pub record Session : Type 0 where
  pub db : Handle
  pub conn_info : ConnectionInfo

module _ (w : World) where
  -- db.ExecContext, with the prefix of its error
  unfoldable pub exec : Handle → Statement → String → Effect Unit
  exec db statement prefix = wrap prefix (perform w (sql_exec db statement))

  unfoldable pub pinged : Handle → Result (Unit {0}) → Effect Unit
  pinged db (ok _) = pure tt
  pinged db (err e) = do
    attempt (perform w (sql_close db))
    fail (wrapped "failed to ping database" e)

  unfoldable pub connect : Handle → ConnectionInfo → Effect Session
  connect db info = do
    wrap "failed to open database connection" (perform w (sql_open db))
    ping ← attempt (perform w (sql_ping db))
    pinged db ping
    pure (record { db = db; conn_info = info })
