-- ===== src/Tests/Metrics.antt =====
-- A registry that holds the metrics of controller-runtime.
use database_user_operator.Base.{
  ◌≡◌, refl, List, [], ◌∷◌, String, Result, ok, err, plain, if◌then◌else◌,
}
use database_user_operator.Controller.Metrics.{Registry, init}
use database_user_operator.Controller.Metrics.Laws.{Documented, can_register, init-registers}
use database_user_operator.Base

abbrev others : List String
others = "controller_runtime_reconcile_total" ∷ "workqueue_depth" ∷ []

abbrev registry : Registry
registry = record {
  registered = others;
  must_register = λ collectors.
      if can_register others collectors
      then ok tt
      else err (plain "duplicate metrics collector registration attempted");
}

documented : Documented registry
documented = record { registers = λ collectors h. rw h refl }

init-registers_example : init registry ≡ ok tt
unfolding Base.codes Base.has_prefix Base.starts_with
init-registers_example = init-registers registry documented refl
