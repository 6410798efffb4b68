-- ===== src/Controller/Delete/Balance.antt =====
-- The handles that reconcileDelete of internal/controller/database_controller.go opens.
use database_user_operator.Base.{
  refl, List, [], ◌∷◌, Result, ok, err, String, GoError, wrapped, ℕ, ◌++◌,
}
use database_user_operator.World.{World, Handle, update_object}
use database_user_operator.Effects.{Effect, ◌>>=◌}
use database_user_operator.Effects.Keeps.{
  Keeps, Keeps-bind, Keeps-if, Keeps-attempt, Keeps-pure, Keeps-fail, keeps_rules,
}
use database_user_operator.Effects.Avoids.{kube, sql, object, Ignores, Kind, Keeps-perform}
use database_user_operator.Effects.Avoids
use database_user_operator.Effects.Triples.{
  Post, Triple, Triple-Keeps, Triple-attempt, Triple-finally, Keeps-before,
}
use database_user_operator.Api.{Database}
use database_user_operator.Database.Client.{Client}
use database_user_operator.Database.Client.Handles.{
  Open, OpenClient, Open-Ignores, handle_of, new_client-Open, close_client-Open,
}
use database_user_operator.Controller.Calls.{get_connection_string-Keeps}
use database_user_operator.Controller.Delete.{
  drop_resources, cleanup_with, cleanup_at, delete_credentials, release, conclude, cleanup,
  reconcile_delete,
}
use database_user_operator.Controller.Delete.Calls.{drop_resources-Keeps, delete_credentials-Keeps}

module _ (w : World) (db : Database) where
  release-Open : (handles : List Handle) → Keeps (Open w handles) (release w db)
  unfolding release
  release-Open handles =
      Keeps-bind _ _ (Keeps-perform w (update_object _) (Open-Ignores w handles object refl))
        (λ _. Keeps-pure 0)

  conclude-Open :
      (handles : List Handle) (errors : List GoError)
      → Keeps (Open w handles) (conclude w db errors)
  unfolding conclude
  conclude-Open handles [] = release-Open handles
  conclude-Open handles (e ∷ errors) = Keeps-fail e

  -- The end of the function, behind the cleanup of the database server.
  abbrev rest : List GoError → Effect ℕ
  rest errors = do more ← delete_credentials w db; conclude w db (errors ++ more)

  rest-Open : (handles : List Handle) (errors : List GoError) → Keeps (Open w handles) (rest errors)
  rest-Open handles errors =
      Keeps-bind _ _
        (delete_credentials-Keeps w _ (Open-Ignores w handles Avoids.secret refl)
          (Open-Ignores w handles Avoids.delete refl) db)
        (λ more. conclude-Open handles (errors ++ more))

  module _ (handles : List Handle) where
    -- The handle of the client is open while the resources are dropped and the secret is deleted.
    work-Open :
        (dc : Client)
        → Keeps (OpenClient w handles dc) (do errors ← drop_resources w dc db; rest errors)
    work-Open dc =
        let hs = handle_of dc ∷ handles in
        Keeps-bind _ _
          (drop_resources-Keeps w _ (Open-Ignores w hs sql refl)
            (Open-Ignores w hs Avoids.drop refl) dc db)
          (rest-Open hs)

    cleanup_with-Open :
        (r : Result Client)
        → Triple
            (λ calls. Post (OpenClient w handles) (Open w handles) (r, calls))
            (cleanup_with w db r rest)
            (λ _. Open w handles)
            (Open w handles)
    unfolding cleanup_with
    cleanup_with-Open (err e) =
        Triple-Keeps (Open w handles) _
          (rest-Open handles (wrapped "failed to create database client" e ∷ []))
    cleanup_with-Open (ok dc) =
        Triple-finally (OpenClient w handles dc) (Open w handles) _ _
          (Triple-Keeps (OpenClient w handles dc) _ (work-Open dc)) (close_client-Open w handles dc)

    cleanup_at-Open : (r : Result String) → Keeps (Open w handles) (cleanup_at w db r rest)
    unfolding cleanup_at
    cleanup_at-Open (err e) = rest-Open handles (wrapped "failed to get connection string" e ∷ [])
    cleanup_at-Open (ok connection_string) =
        Keeps-if _ _ _
          (Keeps-before (λ r calls. Post (OpenClient w handles) (Open w handles) (r, calls)) _ _
            (Triple-attempt _ _ _ (new_client-Open w handles db.spec.engine connection_string))
            cleanup_with-Open)
          (rest-Open handles [])

    cleanup-Open : Keeps (Open w handles) (cleanup w db)
    unfolding cleanup
    cleanup-Open =
        Keeps-bind _ _
          (Keeps-attempt _ (
            get_connection_string-Keeps w _ (Open-Ignores w handles Avoids.secret refl)
              (Open-Ignores w handles kube refl) db))
          cleanup_at-Open

    pub reconcile_delete-Open : Keeps (Open w handles) (reconcile_delete w db)
    unfolding reconcile_delete
    reconcile_delete-Open = search (keeps_rules, release-Open, cleanup-Open)
