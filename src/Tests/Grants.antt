-- ===== src/Tests/Grants.antt =====
-- A right that is granted on a server that accepts everything.
use database_user_operator.Base.{[], ◌∷◌}
use database_user_operator.World.{postgres_driver}
use database_user_operator.Database.Client.Connect.{Session}
use database_user_operator.Database.Client.Postgres.{grant_privileges}
use database_user_operator.Database.Client.Granting.{GrantEnds, grant_privileges-GrantEnds}
use database_user_operator.Tests.Outside.{fresh}

abbrev admin : Session
admin = record {
  db = record { driver = postgres_driver; dsn = "postgres://a:b@h/db" };
  conn_info = record {
    host = "h";
    port = "5432";
    database = "db";
    username = "a";
    password = "b";
    ssl_mode = "require";
  };
}

grant_privileges-GrantEnds_example :
    GrantEnds fresh admin "shop" "shop"
      ("ALL" ∷ [])
      []
      (grant_privileges fresh admin "shop" "shop" ("ALL" ∷ []) []).0
      (grant_privileges fresh admin "shop" "shop" ("ALL" ∷ []) []).1
grant_privileges-GrantEnds_example =
    grant_privileges-GrantEnds fresh admin "shop" "shop" ("ALL" ∷ []) []
