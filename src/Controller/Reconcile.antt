-- ===== src/Controller/Reconcile.antt =====
-- Reconcile of internal/controller/database_controller.go.
pub mod Laws
pub mod Calls
pub mod Balance
pub mod Branches
pub mod Untouched
pub mod Forgotten
use database_user_operator.Base.{
  ℕ, Bool, true, false, not, ◌&&◌, ◌||◌, Option, none, some, String, ◌<>◌, List, [], ◌∷◌, ◌++◌,
  ◌==◌, ◌=ℕ◌, if◌then◌else◌, GoError, Result, ok, err,
}
use database_user_operator.World.{World, Call, get_database, update_object, update_status}
use database_user_operator.Effects.{Effect, pure, fail, lift, attempt, ◌>>=◌, ◌>>◌, perform}
use database_user_operator.Errors.{
  error_text, is_not_found, is_aws_permission_error, is_aws_resource_not_found_error,
}
use database_user_operator.Api.{Database, DatabaseStatus}
use database_user_operator.Controller.State.{State, Step, effect, current, modify_status, event}
use database_user_operator.Controller.Message.{normalize_error_message}
use database_user_operator.Controller.Delete.{finalizer, has_finalizer, reconcile_delete}
use database_user_operator.Controller.Resources.{reconcile_database}

-- time.Minute and requeueAfterSuccess, in seconds.
abbrev pub minute : ℕ
minute = 60

abbrev pub requeue_after_success : ℕ
requeue_after_success = 600

-- controllerutil.AddFinalizer
unfoldable pub add_finalizer : Database → Database
add_finalizer db = record db {
  metadata = record db.metadata { finalizers = db.metadata.finalizers ++ (finalizer ∷ []) };
}

-- The status does not say this error yet.
unfoldable pub is_new_error : DatabaseStatus → String → Bool
is_new_error status message = not (status.phase == "Error") || not (status.message == message)

abbrev permission_hint : String
permission_hint =
    "AWS permission denied. Ensure the operator has IAM permissions for Secrets Manager. Grant secretsmanager:* on the secret ARN, or configure IRSA/instance profile."

abbrev not_found_hint : String
not_found_hint =
    "AWS resource not found. Verify the secret exists in AWS Secrets Manager and the name/region are correct in the Database spec."

module _ (w : World) where
  warn : (reason message : String) → Effect Unit
  warn = event w "Warning"

  unfoldable pub error_event : GoError → Effect Unit
  unfolding warn
  error_event e =
      if is_not_found e
      then warn "ConfigurationError" (error_text e)
      else if is_aws_permission_error (some e)
      then warn "PermissionError" permission_hint
      else if is_aws_resource_not_found_error (some e)
      then warn "ResourceNotFound" not_found_hint
      else warn "ReconciliationError" (error_text e)

  -- The error goes into the status, is written and reported. A failed write is only logged.
  unfoldable pub report_error : GoError → (message : String) → Step Unit
  report_error e message = do
    db ← current
    modify_status (λ s. record s {
      phase = "Error";
      message = message;
      observed_generation = db.metadata.generation;
    })
    changed ← current
    effect (attempt (perform w (update_status changed)))
    effect (error_event e)

  -- What Reconcile returns for an error.
  unfoldable pub requeue_error : GoError → Step ℕ
  requeue_error e =
      if is_aws_permission_error (some e)
      then pure minute
      else if is_aws_resource_not_found_error (some e)
      then pure minute
      else fail e

  unfoldable pub on_error : GoError → Step ℕ
  unfolding is_new_error
  on_error e = do
    db ← current
    let message = normalize_error_message (error_text e)
    if is_new_error db.status message then report_error e message else pure tt
    requeue_error e

  unfoldable pub on_success : Step ℕ
  on_success = do
    db ← current
    modify_status (λ s. record s {
      phase = "Ready";
      message = "Database, user, and secret are ready";
      observed_generation = db.metadata.generation;
    })
    changed ← current
    effect (perform w (update_status changed))
    pure requeue_after_success

  unfoldable pub finish : Result (Unit {0}) → Step ℕ
  finish (ok _) = on_success
  finish (err e) = on_error e

  unfoldable pub reconcile_live : Step ℕ
  reconcile_live = do result ← attempt (reconcile_database w); finish result

  -- The branches behind the creation event.
  unfoldable pub dispatch : Step ℕ
  dispatch = do
    db ← current
    if db.metadata.deleted
        then effect (reconcile_delete w db)
        else (if not (has_finalizer db.metadata.finalizers)
            then effect (do perform w (update_object (add_finalizer db)); pure minute)
            else reconcile_live)

  unfoldable pub reconcile_object : Step ℕ
  reconcile_object = do
    db ← current
    effect (
        if db.status.observed_generation =ℕ 0
        then event w "Normal" "Created" "Database created"
        else pure tt)
    dispatch

  -- An object that is gone needs no work.
  unfoldable pub on_fetched : Result Database → Effect ℕ
  on_fetched (ok db) calls =
      let (r, s) = reconcile_object (record { db = db; calls = calls }) in (r, s.calls)
  on_fetched (err e) calls = if is_not_found e then (ok 0, calls) else (err e, calls)

  unfoldable pub reconcile : (namespace name : String) → Effect ℕ
  reconcile namespace name = do
    fetched ← attempt (perform w (get_database namespace name))
    on_fetched fetched
