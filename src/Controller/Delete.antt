-- ===== src/Controller/Delete.antt =====
-- reconcileDelete of internal/controller/database_controller.go.
pub mod Calls
pub mod Balance
pub mod Refused
pub mod Unreachable
pub mod Gone
pub mod Ended
pub mod Cleaned
use database_user_operator.Base.{
  ℕ, Bool, true, false, not, Option, none, some, String, ◌<>◌, List, [], ◌∷◌, ◌++◌, ◌==◌,
  if◌then◌else◌, GoError, wrapped, Result, ok, err,
}
use database_user_operator.World.{World, Call, update_object}
use database_user_operator.Effects.{
  Effect, pure, fail, lift, attempt, wrap, finally, ◌>>=◌, ◌>>◌, perform,
}
use database_user_operator.Errors.{is_aws_resource_not_found_error}
use database_user_operator.Api.{ObjectMeta, Database}
use database_user_operator.Database.Client
use database_user_operator.Database.Client.{Client}
use database_user_operator.Secrets.Region.{validate_region}
use database_user_operator.Secrets.Client.{AwsClient, new_aws_client, delete}
use database_user_operator.Controller.Spec.{
  get_region, get_username_or_default, get_secret_name_or_default,
}
use database_user_operator.Controller.Source.{get_connection_string}

abbrev pub finalizer : String
finalizer = "database.opzkit.io/database-finalizer"

-- controllerutil.ContainsFinalizer and RemoveFinalizer
unfoldable pub has_finalizer : List String → Bool
has_finalizer [] = false
has_finalizer (f ∷ fs) = if f == finalizer then true else has_finalizer fs

unfoldable pub without_finalizer : List String → List String
without_finalizer [] = []
without_finalizer (f ∷ fs) =
    let rest = without_finalizer fs in if f == finalizer then rest else f ∷ rest

unfoldable pub remove_finalizer : Database → Database
unfolding without_finalizer
remove_finalizer db = record db {
  metadata = record db.metadata { finalizers = without_finalizer db.metadata.finalizers };
}

-- RetainOnDelete, which is true if it is not given.
unfoldable pub retains : Option Bool → Bool
retains none = true
retains (some b) = b

abbrev or_default : String → String → String
or_default s default = if s == "" then default else s

-- What a step adds to the errors that are collected.
unfoldable pub errors_of : {A : Type 0} → String → Result A → List GoError
errors_of prefix (ok a) = []
errors_of prefix (err e) = wrapped prefix e ∷ []

-- DeleteSecret failed for another reason than that the secret does not exist.
unfoldable pub delete_errors : (name : String) → Result (Unit {0}) → List GoError
unfolding errors_of
delete_errors name (ok _) = []
delete_errors name (err e) =
    if not (is_aws_resource_not_found_error (some e))
    then wrapped ("failed to delete secret " <> name) e ∷ []
    else []

module _ (w : World) where
  -- A resource that was found is dropped, and the errors are collected.
  unfoldable pub drop_found :
      (check drop_message : String) → Result Bool → Effect Unit → Effect (List GoError)
  drop_found check drop_message (err e) drop = pure (wrapped check e ∷ [])
  drop_found check drop_message (ok false) drop = pure []
  drop_found check drop_message (ok true) drop = do
    dropped ← attempt drop
    pure (errors_of drop_message dropped)

  unfoldable pub drop_resources : Client → Database → Effect (List GoError)
  drop_resources dc db = do
    let name = db.spec.database_name
    database ← attempt (Client.database_exists w dc name)
    first ←
        drop_found "failed to check database existence" ("failed to drop database " <> name)
          database (Client.drop_database w dc name)
    let username = or_default db.status.actual_username (get_username_or_default db)
    user ← attempt (Client.user_exists w dc username)
    second ←
        drop_found "failed to check user existence" ("failed to drop user " <> username) user
          (Client.drop_user w dc username)
    pure (first ++ second)

  -- Cleanup of the database server, and the rest of the function behind it, which gets the errors
  -- so far. The client is closed when all is done.
  unfoldable pub cleanup_with : Database → Result Client → (List GoError → Effect ℕ) → Effect ℕ
  cleanup_with db (err e) rest = rest (wrapped "failed to create database client" e ∷ [])
  cleanup_with db (ok dc) rest =
      finally (do errors ← drop_resources dc db; rest errors) (Client.close w dc)

  -- An empty connection string skips the database server.
  unfoldable pub cleanup_at : Database → Result String → (List GoError → Effect ℕ) → Effect ℕ
  cleanup_at db (err e) rest = rest (wrapped "failed to get connection string" e ∷ [])
  cleanup_at db (ok connection_string) rest =
      if not (connection_string == "")
      then (do
        dc ← attempt (Client.new_client w db.spec.engine connection_string)
        cleanup_with db dc rest)
      else rest []

  unfoldable pub delete_from : Database → Result AwsClient → Effect (List GoError)
  delete_from db (err e) = pure (wrapped "failed to create AWS client" e ∷ [])
  delete_from db (ok c) = do
    let name = or_default db.status.actual_secret_name (get_secret_name_or_default db)
    deleted ← attempt (delete w c name true)
    pure (delete_errors name deleted)

  unfoldable pub delete_credentials_in : Database → Result (Unit {0}) → Effect (List GoError)
  delete_credentials_in db (err e) = pure (wrapped ("invalid AWS region " <> get_region db) e ∷ [])
  delete_credentials_in db (ok _) = do
    c ← attempt (new_aws_client w (get_region db))
    delete_from db c

  -- The secret is deleted in the region of the spec.
  unfoldable pub delete_credentials : Database → Effect (List GoError)
  delete_credentials db = delete_credentials_in db (validate_region (get_region db))

  -- controllerutil.RemoveFinalizer and r.Update
  unfoldable pub release : Database → Effect ℕ
  release db = do perform w (update_object (remove_finalizer db)); pure 0

  -- The first error is returned; the finalizer goes only if there is none.
  unfoldable pub conclude : Database → List GoError → Effect ℕ
  conclude db [] = release db
  conclude db (e ∷ errors) = fail e

  unfoldable pub cleanup : Database → Effect ℕ
  cleanup db = do
    connection_string ← attempt (get_connection_string w db)
    cleanup_at db connection_string
        (λ errors. do more ← delete_credentials db; conclude db (errors ++ more))

  -- The result is the time in seconds after which to reconcile again, 0 for never.
  unfoldable pub reconcile_delete : Database → Effect ℕ
  unfolding has_finalizer retains
  reconcile_delete db =
      if not (has_finalizer db.metadata.finalizers)
      then pure 0
      else if retains db.spec.retain_on_delete
      then release db
      else cleanup db
