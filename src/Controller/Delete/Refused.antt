-- ===== src/Controller/Delete/Refused.antt =====
-- The cleanup of reconcileDelete when AWS refuses to delete the secret.
use mathlib.Core.Path.{subst}
use database_user_operator.Base.{
  ◌≡◌, refl, sym, ap, ◌∙◌, ℕ, true, false, not, Option, none, some, String, List, [], ◌∷◌, ◌++◌,
  GoError, wrapped, Result, ok, err,
}
use database_user_operator.World.{World, delete_secret}
use database_user_operator.Effects.{Calls, Effect, ◌>>=◌, pure, fail, attempt, perform, proceed}
use database_user_operator.Effects.Keeps.{Keeps, Keeps-fail}
use database_user_operator.Effects.Avoids.{avoids_rules, Avoids, by_kind}
use database_user_operator.Effects.Fails.{Fails, is_err, fails, if-Fails, finally-Fails, bind-Fails}
use database_user_operator.Effects.Steps.{if-at}
use database_user_operator.Errors.{as_resource_not_found, is_aws_resource_not_found_error}
use database_user_operator.Api.{Database}
use database_user_operator.Database.Client.{Client}
use database_user_operator.Database.Client.Calls.{new_client-Keeps, close-Keeps}
use database_user_operator.Secrets.Client.{AwsClient, delete, deleted}
use database_user_operator.Controller.Calls.{get_connection_string-Keeps}
use database_user_operator.Controller.Delete.Calls.{
  writes, drop_resources-Keeps, delete_credentials-Keeps,
}
use database_user_operator.Controller.Delete.{
  has_finalizer, retains, cleanup_with, cleanup_at, delete_errors, delete_from,
  delete_credentials_in, delete_credentials, conclude, cleanup, reconcile_delete,
}

-- The environment refuses to delete a secret, and the error is not that there is none.
module _ (w : World) (e : GoError)
    (refuses : (calls : Calls) (region name : String) (window : Option ℕ)
      → w.reply calls (delete_secret region name true window) ≡ err e)
    (exists : as_resource_not_found e ≡ false)
    (known : is_aws_resource_not_found_error (some (wrapped "failed to delete secret" e)) ≡ false)
    (db : Database) where
  -- An error is collected.
  abbrev Reports : Result (List GoError) → Type 0
  Reports r = (first : GoError) × (more : List GoError) × (r ≡ ok (first ∷ more))

  delete-refused :
      (c : AwsClient) (name : String) (calls : Calls)
      → (delete w c name true calls).0 ≡ err (wrapped "failed to delete secret" e)
  unfolding delete deleted attempt perform fail pure ◌>>=◌
  delete-refused c name calls = rw (refuses calls c.region name none) (rw exists)

  delete_errors-refused :
      (name : String)
      → Reports (ok (delete_errors name (err (wrapped "failed to delete secret" e))))
  unfolding delete_errors
  delete_errors-refused name = rw known (_, _, refl)

  delete_from-Reports :
      (r : Result AwsClient) (calls : Calls) → Reports (delete_from w db r calls).0
  unfolding delete_from attempt pure ◌>>=◌
  delete_from-Reports (err f) calls = (_, _, refl)
  delete_from-Reports (ok c) calls = rw (delete-refused c _ calls) (delete_errors-refused _)

  delete_in-Reports :
      (r : Result (Unit {0})) (calls : Calls) → Reports (delete_credentials_in w db r calls).0
  unfolding delete_credentials_in attempt pure ◌>>=◌
  delete_in-Reports (err f) calls = (_, _, refl)
  delete_in-Reports (ok _) calls = delete_from-Reports _ _

  -- The end of the function, behind the cleanup of the database server.
  abbrev rest : List GoError → Effect ℕ
  rest errors = do more ← delete_credentials w db; conclude w db (errors ++ more)

  conclude-Keeps :
      (errors : List GoError) (first : GoError) (more : List GoError)
      → Keeps (Avoids (by_kind writes)) (conclude w db (errors ++ (first ∷ more)))
  unfolding conclude
  conclude-Keeps [] first more = Keeps-fail first
  conclude-Keeps (f ∷ fs) first more = Keeps-fail f

  conclude-Fails :
      (errors : List GoError) (first : GoError) (more : List GoError)
      → Fails (conclude w db (errors ++ (first ∷ more)))
  unfolding conclude
  conclude-Fails [] first more = fails first
  conclude-Fails (f ∷ fs) first more = fails f

  concluded-Keeps :
      (errors : List GoError) (r : Result (List GoError)) (calls : Calls)
      → Reports r
      → Avoids (by_kind writes) calls
      → Avoids (by_kind writes) (proceed r (λ more. conclude w db (errors ++ more)) calls).1
  concluded-Keeps errors r calls (first, more, h) a =
      rw h ((conclude-Keeps errors first more).after calls a)

  concluded-Fails :
      (errors : List GoError) (r : Result (List GoError)) (calls : Calls)
      → Reports r
      → is_err (proceed r (λ more. conclude w db (errors ++ more)) calls).0 ≡ true
  concluded-Fails errors r calls (first, more, h) =
      rw h ((conclude-Fails errors first more).after calls)

  deletes-Keeps : Keeps (Avoids (by_kind writes)) (delete_credentials w db)
  deletes-Keeps = search (avoids_rules, delete_credentials-Keeps)

  rest-Keeps : (errors : List GoError) → Keeps (Avoids (by_kind writes)) (rest errors)
  unfolding delete_credentials ◌>>=◌
  rest-Keeps errors = record {
    after = λ calls a.
        concluded-Keeps errors _ _ (delete_in-Reports _ calls) (deletes-Keeps.after calls a);
  }

  rest-Fails : (errors : List GoError) → Fails (rest errors)
  unfolding delete_credentials ◌>>=◌
  rest-Fails errors = record {
    after = λ calls. concluded-Fails errors _ _ (delete_in-Reports _ calls);
  }

  cleanup_with-Keeps :
      (r : Result Client) → Keeps (Avoids (by_kind writes)) (cleanup_with w db r rest)
  unfolding cleanup_with
  cleanup_with-Keeps (err f) = rest-Keeps (wrapped "failed to create database client" f ∷ [])
  cleanup_with-Keeps (ok dc) = search (avoids_rules, drop_resources-Keeps, rest-Keeps, close-Keeps)

  cleanup_at-Keeps : (r : Result String) → Keeps (Avoids (by_kind writes)) (cleanup_at w db r rest)
  unfolding cleanup_at
  cleanup_at-Keeps (err f) = rest-Keeps (wrapped "failed to get connection string" f ∷ [])
  cleanup_at-Keeps (ok connection_string) =
      search (avoids_rules, new_client-Keeps, cleanup_with-Keeps, rest-Keeps)

  cleanup-Keeps : Keeps (Avoids (by_kind writes)) (cleanup w db)
  unfolding cleanup
  cleanup-Keeps = search (avoids_rules, get_connection_string-Keeps, cleanup_at-Keeps)

  cleanup_with-Fails : (r : Result Client) → Fails (cleanup_with w db r rest)
  unfolding cleanup_with
  cleanup_with-Fails (err f) = rest-Fails (wrapped "failed to create database client" f ∷ [])
  cleanup_with-Fails (ok dc) = finally-Fails _ _ (bind-Fails _ _ rest-Fails)

  cleanup_at-Fails : (r : Result String) → Fails (cleanup_at w db r rest)
  unfolding cleanup_at
  cleanup_at-Fails (err f) = rest-Fails (wrapped "failed to get connection string" f ∷ [])
  cleanup_at-Fails (ok connection_string) =
      if-Fails _ _ _ (bind-Fails _ _ cleanup_with-Fails) (rest-Fails [])

  cleanup-Fails : Fails (cleanup w db)
  unfolding cleanup
  cleanup-Fails = bind-Fails _ _ cleanup_at-Fails

  -- Where AWS refuses to delete the secret of an object that shall not retain its resources, and not
  -- because the secret is gone, the deletion returns an error and does not write the object, so that
  -- the finalizer stays and the cleanup is tried again.
  pub reconcile_delete_refused :
      (calls : Calls)
      → (has_finalizer db.metadata.finalizers ≡ true)
      → (retains db.spec.retain_on_delete ≡ false)
      → Avoids (by_kind writes) calls
      → Avoids (by_kind writes) (reconcile_delete w db calls).1
        × (is_err (reconcile_delete w db calls).0 ≡ true)
  unfolding reconcile_delete
  reconcile_delete_refused calls has dropped a =
      subst (λ r. Avoids (by_kind writes) r.1 × (is_err r.0 ≡ true))
        (sym (
          if-at (not (has_finalizer db.metadata.finalizers)) false _ _ calls (ap not has)
          ∙ if-at (retains db.spec.retain_on_delete) false _ _ calls dropped))
        (cleanup-Keeps.after calls a, cleanup-Fails.after calls)
