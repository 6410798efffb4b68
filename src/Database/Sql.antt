-- ===== src/Database/Sql.antt =====
-- The SQL that the two clients execute: each statement of internal/database/postgres.go and
-- internal/database/mysql.go, and its text.
use database_user_operator.Base.{String, ◌<>◌, List, join}
use database_user_operator.Database.Quote.{
  quote_identifier, quote_literal, quote_mysql_identifier, quote_mysql_literal,
}

-- Statements of PostgresClient.
pub data PostgresStatement : Type 0 where
  create_database : (name owner : String) → PostgresStatement
  comment_on_database : (name : String) → PostgresStatement
  -- the name is the argument $1 of the query
  terminate_connections : (name : String) → PostgresStatement
  drop_database : (name : String) → PostgresStatement
  alter_user : (username password : String) → PostgresStatement
  create_user : (username password : String) → PostgresStatement
  grant_to_current_user : (username : String) → PostgresStatement
  comment_on_role : (username : String) → PostgresStatement
  revoke_all : (username : String) → PostgresStatement
  drop_user : (username : String) → PostgresStatement
  grant_on_database : (privileges : List String) (name username : String) → PostgresStatement
  grant_on_schema : (username : String) → PostgresStatement
  grant_on_tables : (username : String) → PostgresStatement
  alter_default_privileges : (username : String) → PostgresStatement

-- Statements of MySQLClient.
pub data MysqlStatement : Type 0 where
  create_user : (username password : String) → MysqlStatement
  drop_user : (username : String) → MysqlStatement
  create_database : (name : String) → MysqlStatement
  drop_database : (name : String) → MysqlStatement
  grant_all : (name username : String) → MysqlStatement
  alter_user : (username password : String) → MysqlStatement
  flush_privileges : MysqlStatement

abbrev managed : String
managed = quote_literal "Managed by database-user-operator"

unfoldable pub postgres_text : PostgresStatement → String
unfolding join quote_identifier quote_literal
postgres_text (PostgresStatement.create_database name owner) =
    "CREATE DATABASE " <> (quote_identifier name <> (" OWNER " <> quote_identifier owner))
postgres_text (PostgresStatement.comment_on_database name) =
    "COMMENT ON DATABASE " <> (quote_identifier name <> (" IS " <> managed))
postgres_text (PostgresStatement.terminate_connections name) =
    "\n\t\tSELECT pg_terminate_backend(pid)\n\t\tFROM pg_stat_activity\n\t\tWHERE datname = $1 AND pid <> pg_backend_pid()\n\t"
postgres_text (PostgresStatement.drop_database name) =
    "DROP DATABASE IF EXISTS " <> quote_identifier name
postgres_text (PostgresStatement.alter_user username password) =
    "ALTER USER " <> (quote_identifier username <> (" WITH PASSWORD " <> quote_literal password))
postgres_text (PostgresStatement.create_user username password) =
    "CREATE USER " <> (quote_identifier username <> (" WITH PASSWORD " <> quote_literal password))
postgres_text (PostgresStatement.grant_to_current_user username) =
    "GRANT " <> (quote_identifier username <> " TO CURRENT_USER")
postgres_text (PostgresStatement.comment_on_role username) =
    "COMMENT ON ROLE " <> (quote_identifier username <> (" IS " <> managed))
postgres_text (PostgresStatement.revoke_all username) =
    "REVOKE ALL PRIVILEGES ON ALL TABLES IN SCHEMA public FROM " <> quote_identifier username
postgres_text (PostgresStatement.drop_user username) =
    "DROP USER IF EXISTS " <> quote_identifier username
postgres_text (PostgresStatement.grant_on_database privileges name username) =
    "GRANT "
    <> (join privileges ", "
        <> (" ON DATABASE " <> (quote_identifier name <> (" TO " <> quote_identifier username))))
postgres_text (PostgresStatement.grant_on_schema username) =
    "GRANT ALL ON SCHEMA public TO " <> quote_identifier username
postgres_text (PostgresStatement.grant_on_tables username) =
    "GRANT ALL ON ALL TABLES IN SCHEMA public TO " <> quote_identifier username
postgres_text (PostgresStatement.alter_default_privileges username) =
    "ALTER DEFAULT PRIVILEGES IN SCHEMA public GRANT ALL ON TABLES TO " <> quote_identifier username

unfoldable pub mysql_text : MysqlStatement → String
unfolding quote_mysql_identifier quote_mysql_literal
mysql_text (MysqlStatement.create_user username password) =
    "CREATE USER IF NOT EXISTS "
    <> (quote_mysql_identifier username <> ("@'%' IDENTIFIED BY " <> quote_mysql_literal password))
mysql_text (MysqlStatement.drop_user username) =
    "DROP USER IF EXISTS " <> (quote_mysql_identifier username <> "@'%'")
mysql_text (MysqlStatement.create_database name) =
    "CREATE DATABASE IF NOT EXISTS "
    <> (quote_mysql_identifier name <> " CHARACTER SET utf8mb4 COLLATE utf8mb4_unicode_ci")
mysql_text (MysqlStatement.drop_database name) =
    "DROP DATABASE IF EXISTS " <> quote_mysql_identifier name
mysql_text (MysqlStatement.grant_all name username) =
    "GRANT ALL PRIVILEGES ON "
    <> (quote_mysql_identifier name <> (".* TO " <> (quote_mysql_identifier username <> "@'%'")))
mysql_text (MysqlStatement.alter_user username password) =
    "ALTER USER "
    <> (quote_mysql_identifier username <> ("@'%' IDENTIFIED BY " <> quote_mysql_literal password))
mysql_text MysqlStatement.flush_privileges = "FLUSH PRIVILEGES"
