-- ===== src/Controller/Reconcile/Branches.antt =====
-- The branches of Reconcile of internal/controller/database_controller.go that make one call, and the
-- delay behind an error.
use database_user_operator.Base.{
  ◌≡◌, refl, ap, ◌∙◌, ℕ, Bool, true, false, some, Result, ok, GoError, wrapped, String, List, [],
  ◌∷◌, ◌++◌, arith, if◌then◌else◌, not, ◌⊎◌, inl, inr,
}
use database_user_operator.World.{World, update_status, update_object}
use database_user_operator.Effects.{Calls, ◌>>=◌, proceed, pure, attempt, perform}
use database_user_operator.Effects.Steps.{if-at, then_pure}
use database_user_operator.Errors.{is_aws_permission_error, is_aws_resource_not_found_error}
use database_user_operator.Errors.Laws.{
  is_aws_permission_error-wrapped, is_aws_resource_not_found_error-wrapped,
}
use database_user_operator.Controller.State.{State, Step, effect, current, modify_status, event}
use database_user_operator.Controller.Spec.{needs_reconciliation}
use database_user_operator.Controller.Delete.{finalizer, has_finalizer}
use database_user_operator.Controller.Resources.{reconcile_database}
use database_user_operator.Controller.Reconcile.Laws.{ready}
use database_user_operator.Controller.Reconcile.{
  minute, add_finalizer, requeue_error, error_event, report_error, on_error, on_success,
  requeue_after_success, finish, reconcile_live, dispatch,
}

pub has_finalizer-append : (fs : List String) → has_finalizer (fs ++ (finalizer ∷ [])) ≡ true
unfolding has_finalizer
has_finalizer-append [] = refl
has_finalizer-append (f ∷ fs) = ground (arith, has_finalizer-append fs)

module _ (w : World) (s : State) where
  -- Behind the event for a new object: one that is alive and has no finalizer gets it, by one call.
  pub dispatch_adds_finalizer :
      (s.db.metadata.deleted ≡ false)
      → (has_finalizer s.db.metadata.finalizers ≡ false)
      → ((dispatch w s).1.calls ≡ update_object (add_finalizer s.db) ∷ s.calls)
        × (has_finalizer (add_finalizer s.db).metadata.finalizers ≡ true)
  unfolding dispatch current add_finalizer effect perform ◌>>=◌
  dispatch_adds_finalizer alive no_finalizer = (
    ap (λ r. r.1.calls)
          (if-at s.db.metadata.deleted false _ _ s alive
            ∙ if-at (not (has_finalizer s.db.metadata.finalizers)) true _ _ s (ap not no_finalizer))
        ∙ then_pure (w.reply s.calls (update_object (add_finalizer s.db)))
            (update_object (add_finalizer s.db) ∷ s.calls) minute,
    has_finalizer-append s.db.metadata.finalizers,
  )

  pub reconcile_live_ready :
      (needs_reconciliation s.db ≡ false) → reconcile_live w s ≡ on_success w s
  unfolding reconcile_live reconcile_database attempt current finish pure ◌>>=◌
  reconcile_live_ready h = rw h

  pub on_success-calls : (on_success w s).1.calls ≡ update_status (ready s.db) ∷ s.calls
  unfolding on_success current modify_status perform effect ◌>>=◌
  on_success-calls =
      ap (λ t. t.calls)
        (then_pure {S = State} (w.reply s.calls (update_status (ready s.db)))
          (record { db = ready s.db; calls = update_status (ready s.db) ∷ s.calls })
          requeue_after_success)

  error_event-ok : (e : GoError) (calls : Calls) → (error_event w e calls).0 ≡ ok tt
  unfolding error_event event pure attempt ◌>>=◌
  error_event-ok e calls = ground arith

  report_error-ok :
      (e : GoError) (message : String) (t : State) → (report_error w e message t).0 ≡ ok tt
  unfolding report_error effect current modify_status attempt ◌>>=◌
  report_error-ok e message t = error_event-ok e _

  report_if-ok :
      (e : GoError) (message : String) (t : State) (b : Bool)
      → ((if b then report_error w e message else pure tt) t).0 ≡ ok tt
  unfolding pure
  report_if-ok e message t true = report_error-ok e message t
  report_if-ok e message t false = refl

  proceed-ok :
      (r : Result (Unit {0})) (f : Step ℕ) (t : State)
      → r ≡ ok tt
      → (proceed r (λ _. f) t).0 ≡ (f t).0
  proceed-ok r f t h = rw h

  requeue_error-wrapped :
      (prefix : String) (e : GoError) (t : State)
      → (is_aws_permission_error (some e) ≡ true)
        ⊎ (is_aws_resource_not_found_error (some e) ≡ true)
      → (requeue_error w (wrapped prefix e) t).0 ≡ ok minute
  unfolding requeue_error pure
  requeue_error-wrapped prefix e t (inl h) =
      ground (arith, is_aws_permission_error-wrapped prefix e h)
  requeue_error-wrapped prefix e t (inr h) =
      ground (arith, is_aws_resource_not_found_error-wrapped prefix e h)

  -- An error that is recognised as a missing AWS permission or a missing AWS resource still is when
  -- it was wrapped, so that the object is reconciled again after a minute and not with the
  -- controller's backoff, whether or not the failure was reported before.
  pub on_error_after_minute :
      (prefix : String) (e : GoError)
      → (is_aws_permission_error (some e) ≡ true)
        ⊎ (is_aws_resource_not_found_error (some e) ≡ true)
      → (on_error w (wrapped prefix e) s).0 ≡ ok minute
  unfolding on_error current ◌>>=◌
  on_error_after_minute prefix e h =
      proceed-ok _ (requeue_error w (wrapped prefix e)) _ (report_if-ok (wrapped prefix e) _ s _)
      ∙ requeue_error-wrapped prefix e _ h
