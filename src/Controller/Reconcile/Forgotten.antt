-- ===== src/Controller/Reconcile/Forgotten.antt =====
-- What Reconcile of internal/controller/database_controller.go does behind an error with an object
-- for which all was created before.
use database_user_operator.Base.{
  ◌≡◌, refl, ap, ◌∙◌, true, false, not, ok, err, GoError, String, [], ◌∷◌, ◌=ℕ◌,
}
use database_user_operator.World.{World, update_status, get_database}
use database_user_operator.Effects.{◌>>=◌, attempt, perform, pure}
use database_user_operator.Effects.Steps.{if-at}
use database_user_operator.Errors.{error_text}
use database_user_operator.Api.{Database, DatabaseStatus}
use database_user_operator.Controller.State.{State, effect, current, modify_status, with_status}
use database_user_operator.Controller.Message.{normalize_error_message}
use database_user_operator.Controller.Spec.{needs_reconciliation}
use database_user_operator.Controller.Delete.{has_finalizer}
use database_user_operator.Controller.Resources.{reconcile_database}
use database_user_operator.Controller.Reconcile.{
  is_new_error, report_error, on_error, finish, reconcile_live, dispatch, reconcile_object,
  on_fetched, reconcile,
}
use database_user_operator.Controller.Reconcile.Laws.{
  ready, not_needed, report_if_new, on_error-state,
}
use database_user_operator.Controller.Reconcile.Branches.{reconcile_live_ready, on_success-calls}

-- User, database and secret were created before, the secret in the current format.
abbrev pub Made : DatabaseStatus → Type 0
Made status =
    (status.user_created ≡ true)
    × (status.database_created ≡ true)
    × (status.secret_created ≡ true)
    × (status.secret_format_version ≡ "v2")

-- The object as it is in memory once an error was reported.
abbrev failed : String → Database → Database
failed message db = with_status db (record db.status {
  phase = "Error";
  message = message;
  observed_generation = db.metadata.generation;
})

module _ (w : World) where
  -- An object that is alive, has the finalizer and was seen before, and needs no work.
  idle_object-calls :
      (s : State)
      → s.db.metadata.deleted ≡ false
      → has_finalizer s.db.metadata.finalizers ≡ true
      → (s.db.status.observed_generation =ℕ 0) ≡ false
      → needs_reconciliation s.db ≡ false
      → (reconcile_object w s).1.calls ≡ update_status (ready s.db) ∷ s.calls
  unfolding reconcile_object dispatch current effect pure ◌>>=◌
  idle_object-calls s alive has seen idle = rw seen (
      ap (λ r. r.1.calls)
        (if-at s.db.metadata.deleted false _ _ s alive
          ∙ if-at (not (has_finalizer s.db.metadata.finalizers)) false _ _ s (ap not has)
          ∙ reconcile_live_ready w s idle)
      ∙ on_success-calls w s)

  idle-calls :
      (namespace name : String) (db : Database)
      → w.reply [] (get_database namespace name) ≡ ok db
      → db.metadata.deleted ≡ false
      → has_finalizer db.metadata.finalizers ≡ true
      → (db.status.observed_generation =ℕ 0) ≡ false
      → needs_reconciliation db ≡ false
      → (reconcile w namespace name []).1
        ≡ update_status (ready db) ∷ get_database namespace name ∷ []
  unfolding reconcile on_fetched attempt perform ◌>>=◌
  idle-calls namespace name db fetched alive has seen idle = rw fetched (
      idle_object-calls (record { db = db; calls = get_database namespace name ∷ [] }) alive has
        seen idle)

  report_error-db :
      (e : GoError) (message : String) (s : State)
      → (report_error w e message s).1.db ≡ failed message s.db
  unfolding report_error effect current modify_status attempt ◌>>=◌
  report_error-db e message s = refl

  on_error-db :
      (e : GoError) (s : State)
      → is_new_error s.db.status (normalize_error_message (error_text e)) ≡ true
      → (on_error w e s).1.db ≡ failed (normalize_error_message (error_text e)) s.db
  unfolding report_if_new
  on_error-db e s new =
      ap (λ t. t.db) (on_error-state w e s)
      ∙ rw new (report_error-db e (normalize_error_message (error_text e)) s)

  live-db :
      (e : GoError) (before s : State)
      → reconcile_database w before ≡ (err e, s)
      → is_new_error s.db.status (normalize_error_message (error_text e)) ≡ true
      → (reconcile_live w before).1.db ≡ failed (normalize_error_message (error_text e)) s.db
  unfolding reconcile_live finish attempt ◌>>=◌
  live-db e before s failure new = rw failure (on_error-db e s new)

-- The work fails with an error that the status does not say yet, on an object that is alive, has the
-- finalizer, and for which all was created before. Then the failure is forgotten: the next
-- reconciliation that fetches the object as it was left, with its unchanged spec, does no work. It
-- makes one call behind the fetching, which writes a status that says Ready.
pub reconcile_forgets_failure :
    (w next : World) (namespace name : String) (e : GoError) (before s : State)
    → reconcile_database w before ≡ (err e, s)
    → s.db.metadata.deleted ≡ false
    → has_finalizer s.db.metadata.finalizers ≡ true
    → (s.db.metadata.generation =ℕ 0) ≡ false
    → Made s.db.status
    → is_new_error s.db.status (normalize_error_message (error_text e)) ≡ true
    → next.reply [] (get_database namespace name) ≡ ok (reconcile_live w before).1.db
    → (written : Database) × ((reconcile next namespace name []).1
        ≡ update_status written ∷ get_database namespace name ∷ [])
      × (written.status.phase ≡ "Ready")
      × (written.spec ≡ s.db.spec)
reconcile_forgets_failure w next namespace name e before s failure alive has seen (u, d, c, v) new
      fetched =
    let left = failed (normalize_error_message (error_text e)) s.db in
    (
      ready left,
      idle-calls next namespace name left
          (fetched ∙ ap (λ db. ok db) (live-db w e before s failure new)) alive has seen
          (not_needed next left u d c v refl),
      refl,
      refl,
    )
