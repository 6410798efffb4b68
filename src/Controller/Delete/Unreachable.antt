-- ===== src/Controller/Delete/Unreachable.antt =====
-- The cleanup of reconcileDelete when the administrator's connection string cannot be read.
use mathlib.Core.Path.{subst}
use database_user_operator.Base.{
  ◌≡◌, refl, sym, ap, ◌∙◌, ℕ, true, false, not, String, [], ◌∷◌, ◌++◌, GoError, wrapped, Result, ok,
  err,
}
use database_user_operator.World.{World}
use database_user_operator.Effects.{Calls, Effect, ◌>>=◌, attempt}
use database_user_operator.Effects.Keeps.{Keeps, Keeps-bind, Keeps-fail}
use database_user_operator.Effects.Avoids.{
  avoids_rules, secret, kube, Ignores-Avoids, Avoids, by_kind,
}
use database_user_operator.Effects.Fails.{Fails, is_err, fails, bind-Fails}
use database_user_operator.Effects.Steps.{if-at}
use database_user_operator.Api.{Database}
use database_user_operator.Controller.Calls.{get_connection_string-Keeps}
use database_user_operator.Controller.Source.{get_connection_string}
use database_user_operator.Controller.Delete.Calls.{writes, delete_credentials-Keeps}
use database_user_operator.Controller.Delete.{
  has_finalizer, retains, cleanup_at, delete_credentials, conclude, cleanup, reconcile_delete,
}

module _ (w : World) (db : Database) where
  deletes-Keeps : Keeps (Avoids (by_kind writes)) (delete_credentials w db)
  deletes-Keeps = search (avoids_rules, delete_credentials-Keeps)

  -- The end of the function with an error that was collected before.
  abbrev rest : GoError → Effect ℕ
  rest e = do more ← delete_credentials w db; conclude w db ((e ∷ []) ++ more)

  rest-Keeps : (e : GoError) → Keeps (Avoids (by_kind writes)) (rest e)
  unfolding conclude
  rest-Keeps e = Keeps-bind _ _ deletes-Keeps (λ more. Keeps-fail e)

  rest-Fails : (e : GoError) → Fails (rest e)
  unfolding conclude
  rest-Fails e = bind-Fails _ _ (λ more. fails e)

  abbrev Held : Result ℕ × Calls → Type 0
  Held r = Avoids (by_kind writes) r.1 × (is_err r.0 ≡ true)

  cleanup_at-Held :
      (r : Result String) (e : GoError) (calls : Calls)
      → r ≡ err e
      → Avoids (by_kind writes) calls
      → Held (
          cleanup_at w db r
            (λ errors. do more ← delete_credentials w db; conclude w db (errors ++ more))
            calls)
  unfolding cleanup_at
  cleanup_at-Held (ok s) e calls h a = cc
  cleanup_at-Held (err f) e calls h a =
      let first = wrapped "failed to get connection string" f in
      ((rest-Keeps first).after calls a, (rest-Fails first).after calls)

  cleanup-Held :
      (e : GoError) (calls : Calls)
      → (get_connection_string w db calls).0 ≡ err e
      → Avoids (by_kind writes) calls
      → Held (cleanup w db calls)
  unfolding cleanup attempt ◌>>=◌
  cleanup-Held e calls h a = cleanup_at-Held _ e _ h (
      (get_connection_string-Keeps w (Avoids (by_kind writes)) (Ignores-Avoids writes secret refl)
          (Ignores-Avoids writes kube refl) db).after
        calls a)

  -- Where the administrator's connection string of an object that shall not retain its resources
  -- cannot be read, the deletion returns an error and does not write the object, whatever becomes of
  -- the secret: the finalizer stays.
  pub reconcile_delete_unreachable :
      (e : GoError) (calls : Calls)
      → (has_finalizer db.metadata.finalizers ≡ true)
      → (retains db.spec.retain_on_delete ≡ false)
      → (get_connection_string w db calls).0 ≡ err e
      → Avoids (by_kind writes) calls
      → Avoids (by_kind writes) (reconcile_delete w db calls).1
        × (is_err (reconcile_delete w db calls).0 ≡ true)
  unfolding reconcile_delete
  reconcile_delete_unreachable e calls has dropped h a =
      subst (λ r. Held r)
        (sym (
          if-at (not (has_finalizer db.metadata.finalizers)) false _ _ calls (ap not has)
          ∙ if-at (retains db.spec.retain_on_delete) false _ _ calls dropped))
        (cleanup-Held e calls h a)
