-- ===== src/Tests/Dsn.antt =====
-- A DSN that is built and read back.
use database_user_operator.Base.{◌≡◌, refl, lacks}
use database_user_operator.Database.Connection.{ConnectionInfo, mysql_dsn, parse_mysql_dsn}
use database_user_operator.Database.Connection.Dsn.{Plain, parse_mysql_dsn-mysql_dsn}

abbrev admin : ConnectionInfo
admin = record {
  host = "db.example.com";
  port = "3306";
  database = "mysql";
  username = "admin";
  password = "pa:ss/word";
  ssl_mode = "";
}

plain : Plain admin
unfolding lacks
plain = record {
  username_given = λ e. cc;
  host_given = λ e. cc;
  database_given = λ e. cc;
  username_colon = refl;
  username_at = refl;
  username_bracket = refl;
  password_at = refl;
  password_bracket = refl;
  host_colon = refl;
  host_bracket = refl;
  port_bracket = refl;
  database_question = refl;
}

parse_mysql_dsn-mysql_dsn_example :
    parse_mysql_dsn (mysql_dsn admin) ≡ record admin { ssl_mode = "" }
parse_mysql_dsn-mysql_dsn_example = parse_mysql_dsn-mysql_dsn admin plain
