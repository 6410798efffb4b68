-- ===== src/Database/Connection.antt =====
-- Connection strings: ParseConnectionString of internal/database/postgres.go,
-- ParseMySQLConnectionString, parseMySQLDSN and convertMySQLURLToDSN of internal/database/mysql.go.
pub mod Dsn
use database_user_operator.Base.{
  ℕ, zero, suc, ◌+◌, ◌||◌, Option, none, some, String, ◌<>◌, ◌==◌, if◌then◌else◌, plain, wrapped,
  Result, ok, err, take_text, drop_text, starts_with, index, trim_prefix,
}
use database_user_operator.World.{World, Url}

pub record ConnectionInfo : Type 0 where
  pub host : String
  pub port : String
  pub database : String
  pub username : String
  pub password : String
  pub ssl_mode : String

abbrev or_default : String → String → String
or_default s default = if s == "" then default else s

-- u.User.Username() and u.User.Password(), of a user that may be missing.
unfoldable pub user_name : Option (String × Option String) → String
user_name none = ""
user_name (some (name, password)) = name

unfoldable pub user_password : Option (String × Option String) → String
user_password none = ""
user_password (some (name, none)) = ""
user_password (some (name, some password)) = password

-- The connection info of a PostgreSQL URL.
unfoldable pub postgres_info : Url → ConnectionInfo
unfolding trim_prefix user_name user_password
postgres_info u = record {
  host = u.hostname;
  port = or_default u.port "5432";
  database = trim_prefix u.path "/";
  username = user_name u.user;
  password = user_password u.user;
  ssl_mode = or_default u.sslmode "require";
}

-- The connection info of a MySQL URL.
unfoldable pub mysql_info : Url → ConnectionInfo
unfolding trim_prefix user_name user_password
mysql_info u = record {
  host = u.hostname;
  port = or_default u.port "3306";
  database = trim_prefix u.path "/";
  username = user_name u.user;
  password = user_password u.user;
  ssl_mode = "";
}

unfoldable pub info_of_url : (Url → ConnectionInfo) → Result Url → Result ConnectionInfo
info_of_url info (ok u) = ok (info u)
info_of_url info (err e) = err (wrapped "failed to parse connection URL" e)

-- s[:i] and s[i+1:] for the position of a separator that is not at the front; else `none`.
abbrev pub Cut : Type 0
Cut = Option (String × String)

unfoldable pub cut_at : ℕ → String → Option ℕ → Cut
unfolding take_text drop_text
cut_at width s none = none
cut_at width s (some zero) = none
cut_at width s (some (suc i)) = some (take_text (suc i) s, drop_text (suc i + width) s)

-- strings.Index(s, separator) > 0, and the parts of s on both sides.
unfoldable pub cut : String → String → ℕ → Cut
unfolding index cut_at
cut s separator width = cut_at width s (index s separator)

-- The user and the password of "user:password@…".
unfoldable pub dsn_user : Cut → String × String
unfolding cut
dsn_user none = ("", "")
dsn_user (some (user_pass, _)) = elim (cut user_pass ":" 1) [
  | none ↦ (user_pass, "")
  | some (user, password) ↦ (user, password)
]

-- The host and the port of "host:port", with the default port.
unfoldable pub dsn_host : String → String × String
unfolding cut
dsn_host host_port = elim (cut host_port ":" 1) [
  | none ↦ (host_port, "3306")
  | some (host, port) ↦ (host, port)
]

-- The text behind "@tcp(" up to the next ")". (The ")" is looked for from the "@" on, which no
-- position before the text is.)
unfoldable pub dsn_address : String → Option ℕ → String × String
unfolding dsn_host index drop_text take_text
dsn_address dsn none = ("", "")
dsn_address dsn (some start) =
    let behind = drop_text (start + 5) dsn in
    elim (index behind ")") [ none ↦ ("", "") | some end ↦ dsn_host (take_text end behind) ]

-- The database of "…)/database?parameters".
unfoldable pub dsn_database : Cut → String
unfolding cut
dsn_database none = ""
dsn_database (some (_, remaining)) = elim (cut remaining "?" 1) [
  | none ↦ remaining
  | some (database, _) ↦ database
]

unfoldable pub parse_mysql_dsn : String → ConnectionInfo
unfolding dsn_user dsn_address dsn_database
parse_mysql_dsn dsn =
    let (username, password) = dsn_user (cut dsn "@" 1) in
    let (host, port) = dsn_address dsn (index dsn "@tcp(") in
    record {
      host = host;
      port = port;
      database = dsn_database (cut dsn ")/" 2);
      username = username;
      password = password;
      ssl_mode = "";
    }

-- The DSN that convertMySQLURLToDSN builds.
unfoldable pub mysql_dsn : ConnectionInfo → String
mysql_dsn info =
    info.username
    <> (":"
        <> (info.password
            <> ("@tcp("
                <> (info.host
                    <> (":" <> (info.port <> (")/" <> (info.database <> "?parseTime=true"))))))))

module _ (w : World) where
  unfoldable pub parse_connection_string : String → Result ConnectionInfo
  unfolding info_of_url starts_with
  parse_connection_string s =
      if starts_with s "postgres://" || starts_with s "postgresql://"
      then info_of_url postgres_info (w.parse_url s)
      else err
          (plain "unsupported connection string format, expected postgres:// or postgresql:// URL")

  unfoldable pub parse_mysql_connection_string : String → Result ConnectionInfo
  unfolding info_of_url starts_with parse_mysql_dsn
  parse_mysql_connection_string s =
      if starts_with s "mysql://"
      then info_of_url mysql_info (w.parse_url s)
      else elim (index s "@tcp(") [
        | none ↦ err (plain "unsupported MySQL connection string format")
        | some _ ↦ ok (parse_mysql_dsn s)
      ]
