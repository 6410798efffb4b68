-- ===== src/Tests/Delete.antt =====
-- The theorems on reconcileDelete at concrete objects.
use database_user_operator.Base.{◌≡◌, refl, true, false, [], ◌∷◌}
use database_user_operator.Effects.Avoids.{Avoids, by_kind}
use database_user_operator.Effects.Fails.{is_err}
use database_user_operator.Base
use database_user_operator.Errors
use database_user_operator.Controller.Delete.{has_finalizer, retains, reconcile_delete}
use database_user_operator.Controller.Delete.Calls.{writes}
use database_user_operator.Base.{plain}
use database_user_operator.Effects.{◌>>=◌}
use database_user_operator.Controller.Spec.{connection_source}
use database_user_operator.Controller.Source.{get_connection_string}
use database_user_operator.Controller.Delete.Unreachable.{reconcile_delete_unreachable}
use database_user_operator.Controller.Delete.Ended.{Ended}
use database_user_operator.Controller.Delete.Cleaned.{reconcile_delete-Clean}
use database_user_operator.Controller.Delete.Refused.{reconcile_delete_refused}
use database_user_operator.Tests.Outside.{fresh, denying, denied, new_database, sourceless_database}

reconcile_delete_refused_example :
    Avoids (by_kind writes) (reconcile_delete denying new_database []).1
    × (is_err (reconcile_delete denying new_database []).0 ≡ true)
unfolding has_finalizer retains Errors.is_aws_resource_not_found_error Errors.as_resource_not_found
    Base.contains_any Base.to_lower Errors.error_text
reconcile_delete_refused_example =
    reconcile_delete_refused denying denied (λ _ _ _ _. refl) refl refl new_database [] refl refl tt

reconcile_delete_unreachable_example :
    Avoids (by_kind writes) (reconcile_delete fresh sourceless_database []).1
    × (is_err (reconcile_delete fresh sourceless_database []).0 ≡ true)
unfolding has_finalizer retains get_connection_string connection_source ◌>>=◌
reconcile_delete_unreachable_example =
    reconcile_delete_unreachable fresh sourceless_database
      (plain "neither ConnectionStringSecretRef nor ConnectionStringAWSSecretRef is specified") []
      refl refl refl tt

reconcile_delete-Clean_example : Ended fresh new_database (reconcile_delete fresh new_database []).1
unfolding retains
reconcile_delete-Clean_example = reconcile_delete-Clean fresh new_database refl
