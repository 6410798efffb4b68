-- ===== src/Tests/Reconcile.antt =====
-- The theorems on Reconcile at concrete objects.
use database_user_operator.Base.{
  ◌≡◌, refl, ok, err, GoError, true, false, Bool, [], ◌∷◌, inl, inr, Result, plain, wrapped, some,
  String,
}
use database_user_operator.World.{World, Call, Reply, get_database, update_status}
use database_user_operator.Api.{Database}
use database_user_operator.Effects.{Calls, ◌>>=◌, lift, fail}
use database_user_operator.Effects.Ensures.{Ensures}
use database_user_operator.Errors.{error_text, is_aws_permission_error}
use database_user_operator.Base
use database_user_operator.Controller.Calls.{Clean}
use database_user_operator.Controller.Resources.{reconcile_database}
use database_user_operator.Controller.Resources.Laws.{Stored, reconcile_database-Stored}
use database_user_operator.Controller.Reconcile.{minute, on_error, reconcile_object, reconcile}
use database_user_operator.Controller.State.{State, current, effect}
use database_user_operator.Controller.Spec.{needs_reconciliation, connection_source}
use database_user_operator.Controller.Source.{get_connection_string}
use database_user_operator.Controller.Delete.{has_finalizer}
use database_user_operator.Controller.Resources.{reconcile_needed}
use database_user_operator.Controller.Reconcile.{is_new_error, reconcile_live}
use database_user_operator.Controller.Reconcile.Forgotten.{reconcile_forgets_failure}
use database_user_operator.Controller.Reconcile.Laws.{on_error_again}
use database_user_operator.Controller.Reconcile.Branches.{on_error_after_minute}
use database_user_operator.Controller.Reconcile.Untouched.{Untouched, reconcile-Untouched}
use database_user_operator.Controller.Reconcile.Calls.{destructive, reconcile_object_loses_nothing}
use database_user_operator.Tests.Outside.{
  fresh, fresh_reply, with_reply, denying, denied, new_state, retained_database,
  sourceless_database, metadata, empty_status,
}

reconcile_database-Stored_example : Ensures Stored (reconcile_database fresh new_state)
reconcile_database-Stored_example = reconcile_database-Stored fresh new_state

reconcile_object_loses_nothing_example : Clean destructive (reconcile_object fresh new_state).1
reconcile_object_loses_nothing_example = reconcile_object_loses_nothing fresh new_state refl tt

on_error_again_example :
    (on_error denying denied (on_error denying denied new_state).1).1
    ≡ (on_error denying denied new_state).1
on_error_again_example = on_error_again denying denied denied new_state refl

-- A fresh environment in which the API server has one object.
abbrev serving : Database → World
serving db = with_reply reply
  where
    reply : Calls → (c : Call) → Result (Reply c)
    reply calls (get_database _ _) = ok db
    reply calls c = fresh_reply calls c

abbrev deleted_database : Database
deleted_database = record retained_database {
  metadata = record retained_database.metadata { deleted = true };
}

reconcile-Untouched_example : Untouched (reconcile (serving deleted_database) "default" "shop" []).1
reconcile-Untouched_example =
    reconcile-Untouched (serving deleted_database) "default" "shop" deleted_database refl
      (inr (inl (refl, λ h. cc)))

-- All was created for the first generation, and the second has no connection string.
abbrev edited_state : State
edited_state = record {
  db = record sourceless_database {
    metadata = record metadata { generation = 2 };
    status = record empty_status {
      phase = "Ready";
      observed_generation = 1;
      database_created = true;
      user_created = true;
      secret_created = true;
      secret_format_version = "v2";
    };
  };
  calls = [];
}

abbrev no_source : GoError
no_source = plain "neither ConnectionStringSecretRef nor ConnectionStringAWSSecretRef is specified"

edited_fails : reconcile_database fresh edited_state ≡ (err no_source, edited_state)
unfolding reconcile_database reconcile_needed needs_reconciliation get_connection_string
    connection_source current effect lift fail ◌>>=◌
edited_fails = refl

abbrev left_database : Database
left_database = (reconcile_live fresh edited_state).1.db

reconcile_forgets_failure_example :
    (written : Database) × ((reconcile (serving left_database) "default" "shop" []).1
      ≡ update_status written ∷ get_database "default" "shop" ∷ [])
    × (written.status.phase ≡ "Ready")
    × (written.spec ≡ edited_state.db.spec)
unfolding has_finalizer is_new_error
reconcile_forgets_failure_example =
    reconcile_forgets_failure fresh (serving left_database) "default" "shop" no_source edited_state
      edited_state edited_fails refl refl refl (refl, refl, refl, refl) refl refl

on_error_after_minute_example : (on_error fresh (wrapped "failed" denied) new_state).0 ≡ ok minute
unfolding is_aws_permission_error Base.contains_any Base.to_lower error_text
on_error_after_minute_example = on_error_after_minute fresh new_state "failed" denied (inl refl)
