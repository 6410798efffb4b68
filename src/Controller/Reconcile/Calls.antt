-- ===== src/Controller/Reconcile/Calls.antt =====
-- The kinds of calls of Reconcile, and of its branches for an object that is not being deleted.
use mathlib.Core.Path.{subst}
use database_user_operator.Base.{
  ◌≡◌, refl, sym, ℕ, Bool, true, false, not, Result, ok, err, String, ◌=ℕ◌, if◌then◌else◌, GoError,
}
use database_user_operator.World.{World, update_status, update_object, get_database}
use database_user_operator.Effects.{Calls, ◌>>=◌, ◌>>◌, perform, pure, proceed}
use database_user_operator.Effects.Keeps.{
  Keeps, Keeps-bind, Keeps-pure, Keeps-if, Keeps-attempt, keeps_rules,
}
use database_user_operator.Effects.Avoids.{
  Avoids, Keeps-perform, Kind, by_kind, kube, sql, session, object, Ignores, Ignores-Avoids,
}
use database_user_operator.Effects.Avoids
use database_user_operator.Api.{Database}
use database_user_operator.Controller.State.{State, effect, current, event}
use database_user_operator.Controller.Calls.{Trace, effect-Trace, Clean, step_rules}
use database_user_operator.Effects.Steps.{if-at}
use database_user_operator.Errors.{is_not_found}
use database_user_operator.Controller.Delete.{has_finalizer, reconcile_delete}
use database_user_operator.Controller.Resources.{reconcile_database}
use database_user_operator.Controller.Resources.Calls.{reconcile_database-Trace}
use database_user_operator.Controller.Reconcile.{
  minute, add_finalizer, error_event, report_error, requeue_error, on_error, on_success, finish,
  reconcile_live, dispatch, reconcile_object, on_fetched, reconcile,
}

-- Calls that destroy data on a database server.
abbrev pub destructive : Kind → Bool
destructive Avoids.drop = true
destructive _ = false

module _ (w : World) (P : Calls → Type 0) (k : Ignores P kube) where
  write_status-Trace : (db : Database) → Keeps {A = Unit} P (perform w (update_status db))
  write_status-Trace db = Keeps-perform w (update_status db) k

  pub event-Keeps :
      (event_type reason message : String) → Keeps P (event w event_type reason message)
  unfolding event
  event-Keeps event_type reason message = search (keeps_rules, Keeps-perform)

  error_event-Keeps : (e : GoError) → Keeps P (error_event w e)
  unfolding error_event
  error_event-Keeps e = search (keeps_rules, event-Keeps)

  report_error-Trace : (e : GoError) (message : String) → Keeps (Trace P) (report_error w e message)
  unfolding report_error
  report_error-Trace e message = search (step_rules, write_status-Trace, error_event-Keeps) depth 12

  requeue_error-Trace : (e : GoError) → Keeps (Trace P) (requeue_error w e)
  unfolding requeue_error
  requeue_error-Trace e = search step_rules

  on_error-Trace : (e : GoError) → Keeps (Trace P) (on_error w e)
  unfolding on_error
  on_error-Trace e = search (step_rules, report_error-Trace, requeue_error-Trace) depth 8

  pub on_success-Trace : Keeps (Trace P) (on_success w)
  unfolding on_success
  on_success-Trace = search (step_rules, write_status-Trace) depth 12

  finish-Trace : (r : Result (Unit {0})) → Keeps (Trace P) (finish w r)
  unfolding finish
  finish-Trace (ok _) = on_success-Trace
  finish-Trace (err e) = on_error-Trace e

module _ (w : World) (P : Calls → Type 0) (k : Ignores P kube)
    (m : Keeps (Trace P) (reconcile_database w)) where
  pub reconcile_live-Trace : Keeps (Trace P) (reconcile_live w)
  unfolding reconcile_live
  reconcile_live-Trace = Keeps-bind _ _ (Keeps-attempt _ m) (finish-Trace w P k)

  module _ (o : Ignores P object) where
    add-Keeps :
        (db : Database)
        → Keeps {A = ℕ} P (do perform w (update_object (add_finalizer db)); pure minute)
    add-Keeps db =
        Keeps-bind _ _ (Keeps-perform w (update_object (add_finalizer db)) o)
          (λ _. Keeps-pure minute)

    live-Trace :
        (has : Bool) (db : Database)
        → Keeps (Trace P) (
            if not has
            then effect (do perform w (update_object (add_finalizer db)); pure minute)
            else reconcile_live w)
    live-Trace has db = search (step_rules, add-Keeps, reconcile_live-Trace)

    dispatch-Trace :
        (s : State) → s.db.metadata.deleted ≡ false → Trace P s → Trace P (dispatch w s).1
    unfolding dispatch current ◌>>=◌
    dispatch-Trace s alive a =
        subst (λ r. Trace P r.1) (sym (if-at s.db.metadata.deleted false _ _ s alive))
          ((live-Trace (has_finalizer s.db.metadata.finalizers) s.db).after s a)

    then_dispatch-Trace :
        (r : Result (Unit {0})) (s : State)
        → s.db.metadata.deleted ≡ false
        → Trace P s
        → Trace P (proceed r (λ _. dispatch w) s).1
    then_dispatch-Trace (ok _) s alive a = dispatch-Trace s alive a
    then_dispatch-Trace (err e) s alive a = a

    created-Keeps :
        (b : Bool)
        → Keeps {A = Unit} P (if b then event w "Normal" "Created" "Database created" else pure tt)
    created-Keeps b = search (keeps_rules, event-Keeps)

    pub reconcile_object-Trace :
        (s : State) → s.db.metadata.deleted ≡ false → Trace P s → Trace P (reconcile_object w s).1
    unfolding reconcile_object current effect ◌>>=◌
    reconcile_object-Trace s alive a =
        then_dispatch-Trace _ _ alive
          ((created-Keeps (s.db.status.observed_generation =ℕ 0)).after s.calls a)

    -- The same for any object, where it is kept by the deletion too.
    module _ (r : (db : Database) → Keeps P (reconcile_delete w db)) where
      any_dispatch-Trace : Keeps (Trace P) (dispatch w)
      unfolding dispatch
      any_dispatch-Trace =
          Keeps-bind _ _ (search step_rules)
            (λ db. Keeps-if _ _ _ (effect-Trace P _ (r db)) (live-Trace _ db))

      any_object-Trace : Keeps (Trace P) (reconcile_object w)
      unfolding reconcile_object
      any_object-Trace = search (step_rules, created-Keeps, any_dispatch-Trace) depth 8

      missing-Keeps :
          (b : Bool) (e : GoError)
          → Keeps {A = ℕ} P (λ calls. if b then (ok 0, calls) else (err e, calls))
      missing-Keeps true e = record { after = λ calls p. p }
      missing-Keeps false e = record { after = λ calls p. p }

      on_fetched-Keeps : (fetched : Result Database) → Keeps P (on_fetched w fetched)
      unfolding on_fetched
      on_fetched-Keeps (ok db) = record {
        after = λ calls p. any_object-Trace.after (record { db = db; calls = calls }) p;
      }
      on_fetched-Keeps (err e) = missing-Keeps (is_not_found e) e

      pub reconcile-Keeps : (namespace name : String) → Keeps P (reconcile w namespace name)
      unfolding reconcile
      reconcile-Keeps namespace name =
          Keeps-bind _ _ (Keeps-attempt _ (Keeps-perform w (get_database namespace name) k))
            on_fetched-Keeps

-- The reconciliation of an object that is not being deleted never drops a database or a user,
-- whatever the servers and AWS reply, and in each of its branches, errors included.
pub reconcile_object_loses_nothing :
    (w : World) (s : State)
    → s.db.metadata.deleted ≡ false
    → Clean destructive s
    → Clean destructive (reconcile_object w s).1
reconcile_object_loses_nothing w =
    reconcile_object-Trace w (Avoids (by_kind destructive)) (ignores kube refl)
      (reconcile_database-Trace w (Avoids (by_kind destructive)) (ignores Avoids.secret refl)
        (ignores sql refl) (ignores kube refl) (ignores Avoids.password refl)
        (ignores Avoids.write refl) (ignores Avoids.delete refl) (ignores session refl))
      (ignores object refl)
  where
    ignores : (k : Kind) → destructive k ≡ false → Ignores (Avoids (by_kind destructive)) k
    ignores = Ignores-Avoids destructive
