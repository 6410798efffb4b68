-- ===== src/Controller/Delete/Calls.antt =====
-- The kinds of calls of the cleanup in reconcileDelete.
use database_user_operator.Base.{
  Bool, true, false, String, List, [], ◌∷◌, ◌++◌, GoError, wrapped, Result, ok, err,
}
use database_user_operator.World.{World}
use database_user_operator.Effects.{Calls, Effect, ◌>>=◌}
use database_user_operator.Effects.Keeps.{
  Keeps, Keeps-bind, Keeps-if, Keeps-attempt, Keeps-finally, Keeps-pure, keeps_rules,
}
use database_user_operator.Effects.Avoids.{Ignores, Kind, sql, secret, kube, session}
use database_user_operator.Effects.Avoids
use database_user_operator.Api.{Database}
use database_user_operator.Database.Client.{Client}
use database_user_operator.Database.Client.Calls.{
  new_client-Keeps, close-Keeps, database_exists-Keeps, user_exists-Keeps, drop_database-Keeps,
  drop_user-Keeps,
}
use database_user_operator.Secrets.Client.{AwsClient}
use database_user_operator.Secrets.Client.Calls.{new_aws_client-Keeps, delete-Keeps}
use database_user_operator.Controller.Calls.{get_connection_string-Keeps}
use database_user_operator.Controller.Delete.{
  release, conclude, cleanup_with, cleanup_at, cleanup, reconcile_delete, drop_found,
  drop_resources, delete_from, delete_credentials_in, delete_credentials,
}

-- Writes of the object, which could remove its finalizer.
abbrev pub writes : Kind → Bool
writes Avoids.object = true
writes _ = false

module _ (w : World) (P : Calls → Type 0) (q : Ignores P sql) (k : Ignores P Avoids.drop) where
  pub drop_found-Keeps :
      (check message : String) (r : Result Bool) (drop : Effect Unit)
      → Keeps P drop
      → Keeps P (drop_found w check message r drop)
  unfolding drop_found
  drop_found-Keeps check message (err e) drop k = search keeps_rules
  drop_found-Keeps check message (ok false) drop k = search keeps_rules
  drop_found-Keeps check message (ok true) drop k = search keeps_rules

  pub drop_resources-Keeps : (dc : Client) (db : Database) → Keeps P (drop_resources w dc db)
  unfolding drop_resources
  drop_resources-Keeps dc db =
      search
        (
          keeps_rules, database_exists-Keeps, user_exists-Keeps, drop_found-Keeps,
          drop_database-Keeps, drop_user-Keeps,
        )
        depth 14

module _ (w : World) (P : Calls → Type 0) (h : Ignores P secret) (d : Ignores P Avoids.delete) where
  delete_from-Keeps : (db : Database) (r : Result AwsClient) → Keeps P (delete_from w db r)
  unfolding delete_from
  delete_from-Keeps db (err e) = search keeps_rules
  delete_from-Keeps db (ok c) = search (keeps_rules, delete-Keeps) depth 8

  pub delete_in-Keeps :
      (db : Database) (r : Result (Unit {0})) → Keeps P (delete_credentials_in w db r)
  unfolding delete_credentials_in
  delete_in-Keeps db (err e) = search keeps_rules
  delete_in-Keeps db (ok _) = search (keeps_rules, new_aws_client-Keeps, delete_from-Keeps)

  pub delete_credentials-Keeps : (db : Database) → Keeps P (delete_credentials w db)
  unfolding delete_credentials
  delete_credentials-Keeps db = delete_in-Keeps db _

-- What the whole deletion keeps, where the write of the object without the finalizer keeps it.
module _ (w : World) (P : Calls → Type 0) (h : Ignores P secret) (d : Ignores P Avoids.delete)
    (u : Ignores P kube) (q : Ignores P sql) (k : Ignores P Avoids.drop) (o : Ignores P session)
    (db : Database) (r : Keeps P (release w db)) where
  conclude-Keeps : (errors : List GoError) → Keeps P (conclude w db errors)
  unfolding conclude
  conclude-Keeps [] = r
  conclude-Keeps (e ∷ errors) = search keeps_rules

  rest-Keeps :
      (errors : List GoError)
      → Keeps P (do more ← delete_credentials w db; conclude w db (errors ++ more))
  rest-Keeps errors =
      Keeps-bind _ _ (delete_credentials-Keeps w P h d db) (λ more. conclude-Keeps (errors ++ more))

  cleanup_with-Keeps :
      (c : Result Client)
      → Keeps P (
          cleanup_with w db c
            (λ errors. do more ← delete_credentials w db; conclude w db (errors ++ more)))
  unfolding cleanup_with
  cleanup_with-Keeps (err e) = rest-Keeps (wrapped "failed to create database client" e ∷ [])
  cleanup_with-Keeps (ok dc) =
      Keeps-finally _ _ (Keeps-bind _ _ (drop_resources-Keeps w P q k dc db) rest-Keeps)
        (close-Keeps w P q o dc)

  cleanup_at-Keeps :
      (c : Result String)
      → Keeps P (
          cleanup_at w db c
            (λ errors. do more ← delete_credentials w db; conclude w db (errors ++ more)))
  unfolding cleanup_at
  cleanup_at-Keeps (err e) = rest-Keeps (wrapped "failed to get connection string" e ∷ [])
  cleanup_at-Keeps (ok s) =
      Keeps-if _ _ _
        (Keeps-bind _ _ (Keeps-attempt _ (new_client-Keeps w P q o db.spec.engine s))
          cleanup_with-Keeps)
        (rest-Keeps [])

  cleanup-Keeps : Keeps P (cleanup w db)
  unfolding cleanup
  cleanup-Keeps =
      Keeps-bind _ _ (Keeps-attempt _ (get_connection_string-Keeps w P h u db)) cleanup_at-Keeps

  pub reconcile_delete-Keeps : Keeps P (reconcile_delete w db)
  unfolding reconcile_delete
  reconcile_delete-Keeps = Keeps-if _ _ _ (Keeps-pure 0) (Keeps-if _ _ _ r cleanup-Keeps)
