-- ===== src/Database/Client/Balance.antt =====
-- The handles that GrantAllPrivileges opens.
use database_user_operator.Base.{String, List, ◌∷◌, refl}
use database_user_operator.World.{World, Handle, sql_open, sql_close}
use database_user_operator.Effects.{Effect, wrap, finally, perform, ◌>>◌}
use database_user_operator.Effects.Keeps.{Keeps, keeps_rules}
use database_user_operator.Effects.Avoids.{sql}
use database_user_operator.Effects.Triples.{
  Triple-wrap, Triple-bind, Triple-finally, Triple-Keeps, Keeps-Triple,
}
use database_user_operator.Database.Client
use database_user_operator.Database.Client.{Client, postgres_client, mysql_client}
use database_user_operator.Database.Client.Calls.{exec-Keeps, grants-Keeps}
use database_user_operator.Database.Client.Handles.{Open, Open-Ignores, close-Open, opening-Open}
use database_user_operator.Database.Client.Postgres
use database_user_operator.Database.Client.Mysql

module _ (w : World) (handles : List Handle) where
  -- Work between opening and closing a handle, that leaves the open handles, leaves them altogether.
  between-Open :
      (h : Handle) (prefix : String) (m : Effect Unit)
      → Keeps (Open w (h ∷ handles)) m
      → Keeps
          (Open w handles)
          (do wrap prefix (perform w (sql_open h)); finally m (perform w (sql_close h)))
  between-Open h prefix m k = Keeps-Triple (Open w handles) _ (
      Triple-bind (λ _. Open w (h ∷ handles)) (λ _. Open w handles) (Open w handles) _ _
        (Triple-wrap (λ _. Open w (h ∷ handles)) (Open w handles) prefix _
          (opening-Open w handles h))
        (λ _.
          Triple-finally (Open w (h ∷ handles)) (Open w handles) m _
            (Triple-Keeps (Open w (h ∷ handles)) m k) (close-Open w handles h)))

  pub grant_all_privileges-Open :
      (dc : Client) (name username : String)
      → Keeps (Open w handles) (Client.grant_all_privileges w dc name username)
  unfolding Client.grant_all_privileges Postgres.grant_all_privileges Postgres.grant_privileges
      Mysql.grant_all_privileges
  grant_all_privileges-Open (postgres_client s) name username =
      between-Open _ _ _ (grants-Keeps w _ (Open-Ignores w _ sql refl) s _ username name _)
  grant_all_privileges-Open (mysql_client s) name username =
      search (keeps_rules, exec-Keeps, Open-Ignores w handles sql refl)
