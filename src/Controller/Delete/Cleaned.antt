-- ===== src/Controller/Delete/Cleaned.antt =====
-- What reconcileDelete of internal/controller/database_controller.go has cleaned up when it writes the
-- object without its finalizer.
use database_user_operator.Base.{
  ◌≡◌, ◌∙◌, refl, ap, Bool, true, false, not, String, List, [], ◌∷◌, ◌++◌, ◌==◌, if◌then◌else◌,
  GoError, Result, ok, err, inl, inr, eq_iff, ℕ,
}
use database_user_operator.World.{World}
use database_user_operator.Effects.{Calls, Effect, attempt, pure, ◌>>=◌}
use database_user_operator.Effects.Keeps.{Keeps-attempt}
use database_user_operator.Effects.Avoids.{
  Ignores, Kind, kind, by_kind, Avoids, Ignores-Avoids, Keeps-perform, kube, sql, session, object,
}
use database_user_operator.Effects.Avoids
use database_user_operator.Effects.Triples.{
  Triple, Post, Triple-attempt, Triple-left, Triple-bind, Triple-pure, Triple-Keeps, Triple-finally,
  Triple-along, Triple-adapt, Triple-given, Anything,
}
use database_user_operator.Api.{Database}
use database_user_operator.Database.Client
use database_user_operator.Database.Client.{Client}
use database_user_operator.Database.Client.Calls.{new_client-Keeps, close-Keeps}
use database_user_operator.Secrets.Client.{AwsClient}
use database_user_operator.Controller.Calls.{get_connection_string-Keeps}
use database_user_operator.Controller.Source.{get_connection_string}
use database_user_operator.Controller.Delete.{
  retains, has_finalizer, delete_from, delete_credentials_in, delete_credentials, conclude,
  cleanup_with, cleanup_at, cleanup, reconcile_delete,
}
use database_user_operator.Controller.Delete.Calls.{
  drop_resources-Keeps, delete_credentials-Keeps, writes,
}
use database_user_operator.Controller.Delete.Gone.{
  WhenNone, SecretGone, some_not_none, delete_secret-Triple, Here, new_aws_client-Here,
  drop_resources-Triple, none_first,
}
use database_user_operator.Controller.Delete.Ended.{
  NoWrite, Ended, Ended-Ignores, Known, Known-Ignores, conclude-Triple,
}

module _ (w : World) (db : Database) where
  abbrev Ends : Calls → Type 0
  Ends = Ended w db

  delete_from-Triple :
      (r : Result AwsClient)
      → Triple
          (λ calls. Post (Here w db) Anything (r, calls))
          (delete_from w db r)
          (WhenNone (SecretGone w db))
          Anything
  unfolding delete_from
  delete_from-Triple (err e) =
      Triple-pure (WhenNone (SecretGone w db)) Anything _
        (λ calls h n. absurd (some_not_none _ _ n))
  delete_from-Triple (ok c) = delete_secret-Triple w db c

  delete_in-Triple :
      (r : Result (Unit {0}))
      → Triple Anything (delete_credentials_in w db r) (WhenNone (SecretGone w db)) Anything
  unfolding delete_credentials_in
  delete_in-Triple (err e) =
      Triple-pure (WhenNone (SecretGone w db)) Anything _
        (λ calls h n. absurd (some_not_none _ _ n))
  delete_in-Triple (ok _) =
      Triple-bind (λ r calls. Post (Here w db) Anything (r, calls)) (WhenNone (SecretGone w db))
        Anything _ _ (Triple-attempt (Here w db) Anything _ (new_aws_client-Here w db))
        delete_from-Triple

  -- The end of the function, behind the cleanup of the database server.
  abbrev rest : List GoError → Effect ℕ
  rest errors = do more ← delete_credentials w db; conclude w db (errors ++ more)

  delete_credentials-Triple :
      (errors : List GoError)
      → Triple
          (λ calls. Unit {0} × Known w db errors calls)
          (delete_credentials w db)
          (λ more calls. WhenNone (SecretGone w db) more calls × Known w db errors calls)
          (Known w db errors)
  unfolding delete_credentials
  delete_credentials-Triple errors =
      Triple-along (WhenNone (SecretGone w db)) (Known w db errors) _ (delete_in-Triple _) (
        delete_credentials-Keeps w _ (Known-Ignores w db errors Avoids.secret refl)
          (Known-Ignores w db errors Avoids.delete refl) db)

  rest-Triple : (errors : List GoError) → Triple (Known w db errors) (rest errors) (λ _. Ends) Ends
  rest-Triple errors =
      Triple-bind (λ more calls. WhenNone (SecretGone w db) more calls × Known w db errors calls)
        (λ _. Ends) Ends _ _
        (Triple-adapt _ (Known w db errors) _ Ends _ (λ calls h. (tt, h))
          (delete_credentials-Triple errors) (λ more calls h. h) (λ calls h. inl h.0))
        (λ more.
          Triple-given (λ _. Ends) Ends _
            (λ calls h.
              (h.1.0, λ n. (h.1.1 (none_first errors more n).0, h.0 (none_first errors more n).1)))
            (conclude-Triple w db (errors ++ more)))

  failed-Triple : (e : GoError) → Triple NoWrite (rest (e ∷ [])) (λ _. Ends) Ends
  failed-Triple e =
      Triple-given (λ _. Ends) Ends _ (λ calls h. (h, λ n. absurd (some_not_none _ _ n)))
        (rest-Triple (e ∷ []))

  -- The client is closed behind the end.
  cleanup_with-Triple :
      (r : Result Client) → Triple NoWrite (cleanup_with w db r rest) (λ _. Ends) Ends
  unfolding cleanup_with
  cleanup_with-Triple (err e) = failed-Triple _
  cleanup_with-Triple (ok dc) =
      Triple-finally Ends Ends _ _
        (Triple-bind (λ errors calls. Known w db errors calls) (λ _. Ends) Ends _ _
          (Triple-adapt _ NoWrite _ Ends _ (λ calls h. (tt, h))
            (Triple-along _ NoWrite _ (drop_resources-Triple w db dc) (
              drop_resources-Keeps w NoWrite (Ignores-Avoids writes sql refl)
                (Ignores-Avoids writes Avoids.drop refl) dc db))
            (λ errors calls h. (h.1, λ n. inr (dc, (h.0 n).0, (h.0 n).1))) (λ calls h. inl h))
          rest-Triple)
        (close-Keeps w Ends (Ended-Ignores w db sql refl) (Ended-Ignores w db session refl)
          dc).after

  -- The connection string that was read.
  abbrev Read : Result String → Calls → Type 0
  Read r calls = NoWrite calls × ((get_connection_string w db []).0 ≡ r)

  connect-Triple :
      (s : String)
      → Triple NoWrite
          (do dc ← attempt (Client.new_client w db.spec.engine s); cleanup_with w db dc rest)
          (λ _. Ends)
          Ends
  connect-Triple s =
      Triple-bind (λ _. NoWrite) (λ _. Ends) Ends _ _
        (Triple-adapt (λ _. NoWrite) NoWrite _ Ends _ (λ calls h. h)
          (Triple-Keeps NoWrite _ (
            Keeps-attempt _ (
              new_client-Keeps w NoWrite (Ignores-Avoids writes sql refl)
                (Ignores-Avoids writes session refl) db.spec.engine s)))
          (λ a calls h. h) (λ calls h. inl h))
        cleanup_with-Triple

  skip-Triple :
      (s : String) (b : Bool)
      → (s == "") ≡ b
      → Triple
          (Read (ok s))
          (if not b
            then (do dc ← attempt (Client.new_client w db.spec.engine s); cleanup_with w db dc rest)
            else rest [])
          (λ _. Ends)
          Ends
  skip-Triple s false e = Triple-given (λ _. Ends) Ends _ (λ calls h. h.0) (connect-Triple s)
  skip-Triple s true e =
      Triple-given (λ _. Ends) Ends _ (λ calls h. (h.0, λ n. inl (h.1 ∙ ap ok ((eq_iff s "").0 e))))
        (rest-Triple [])

  cleanup_at-Triple :
      (r : Result String) → Triple (Read r) (cleanup_at w db r rest) (λ _. Ends) Ends
  unfolding cleanup_at
  cleanup_at-Triple (err e) = Triple-given (λ _. Ends) Ends _ (λ calls h. h.0) (failed-Triple _)
  cleanup_at-Triple (ok s) = skip-Triple s (s == "") refl

  cleanup-Triple :
      Triple
        (λ calls.
          NoWrite calls
          × ((get_connection_string w db []).0 ≡ (get_connection_string w db calls).0))
        (cleanup w db)
        (λ _. Ends)
        Ends
  unfolding cleanup ◌>>=◌ attempt
  cleanup-Triple = record {
    run = λ calls h.
        (cleanup_at-Triple (get_connection_string w db calls).0).run
          (get_connection_string w db calls).1
          (
            (get_connection_string-Keeps w NoWrite (Ignores-Avoids writes Avoids.secret refl)
                  (Ignores-Avoids writes kube refl) db).after
                calls h.0,
            h.1,
          );
  }

  unretained : (b : Bool) → Ends ((if b then pure 0 else cleanup w db) []).1
  unfolding pure
  unretained true = inl tt
  unretained false = Triple-left Ends _ cleanup-Triple [] (tt, refl)

  -- Whatever the environment replies: an object that does not retain its resources is written, which
  -- removes its finalizer, only if the secret of its name was deleted at once, with no recovery
  -- window, or not found, in a region to which the AWS SDK resolved that of the spec, and its database
  -- and its user were dropped or not found or the administrator's connection string was read as the
  -- empty text.
  pub reconcile_delete-Clean :
      retains db.spec.retain_on_delete ≡ false → Ended w db (reconcile_delete w db []).1
  unfolding reconcile_delete
  reconcile_delete-Clean kept = rw kept (unretained (not (has_finalizer db.metadata.finalizers)))
