-- ===== src/Controller/Reconcile/Laws.antt =====
-- What Reconcile does with the result of reconcileDatabase.
use database_user_operator.Base.{
  ◌≡◌, refl, ◌∙◌, Bool, true, false, Result, ok, err, GoError, String, ◌∷◌, arith, if◌then◌else◌,
  eq_iff,
}
use database_user_operator.World.{World, update_status}
use database_user_operator.Effects.{Calls, ◌>>=◌, proceed, pure, fail, attempt, perform}
use database_user_operator.Effects.Ensures.{Ensures}
use database_user_operator.Errors.{error_text}
use database_user_operator.Api.{Database}
use database_user_operator.Controller.State.{
  State, Step, effect, current, modify_status, with_status,
}
use database_user_operator.Controller.Message.{normalize_error_message}
use database_user_operator.Controller.Spec.{current_secret_format_version, needs_reconciliation}
use database_user_operator.Controller.Resources.{reconcile_database}
use database_user_operator.Controller.Resources.Laws.{Stored, reconcile_database-Stored}
use database_user_operator.Controller.Reconcile.{
  is_new_error, report_error, requeue_error, on_error, on_success, requeue_after_success, finish,
  reconcile_live,
}

-- The status is final, and was the last thing that was written.
abbrev pub Settled : State → Type 0
Settled s =
    (needs_reconciliation s.db ≡ false)
    × (s.db.status.phase ≡ "Ready")
    × ((calls : Calls) × (s.calls ≡ update_status s.db ∷ calls))

-- The object as it is written when the work succeeded.
abbrev pub ready : Database → Database
ready db = with_status db (record db.status {
  phase = "Ready";
  message = "Database, user, and secret are ready";
  observed_generation = db.metadata.generation;
})

module _ (w : World) where
  written-Settled :
      (r : Result (Unit {0})) (s : State)
      → Settled s
      → Settled (proceed r (λ _. pure requeue_after_success) s).1
  unfolding pure
  written-Settled (ok _) s h = h
  written-Settled (err _) s h = h

  pub not_needed :
      (db : Database)
      → (db.status.user_created ≡ true)
      → (db.status.database_created ≡ true)
      → (db.status.secret_created ≡ true)
      → (db.status.secret_format_version ≡ current_secret_format_version)
      → (db.status.observed_generation ≡ db.metadata.generation)
      → needs_reconciliation db ≡ false
  unfolding needs_reconciliation
  not_needed db u d c v g =
      ground (arith, eq_iff db.status.secret_format_version current_secret_format_version)

  on_success-Settled : (s : State) → Stored s → Settled (on_success w s).1
  unfolding on_success effect current modify_status perform ◌>>=◌
  on_success-Settled s (u, d, c, v) =
      written-Settled (w.reply s.calls (update_status (ready s.db))) _
        (not_needed (ready s.db) u d c v refl, refl, (s.calls, refl))

  finish-Settled :
      (r : Result (Unit {0})) (s : State)
      → Ensures Stored (r, s)
      → r ≡ ok tt
      → Settled (finish w r s).1
  unfolding finish
  finish-Settled (ok _) s h e = on_success-Settled s h
  finish-Settled (err _) s h e = cc

  -- When the work succeeds, the status that is written says Ready, it is the last call, and an object
  -- with this status needs no work: the next reconciliation of it finds nothing to do.
  pub reconcile_live-Settled :
      (s : State) → (reconcile_database w s).0 ≡ ok tt → Settled (reconcile_live w s).1
  unfolding reconcile_live attempt ◌>>=◌
  reconcile_live-Settled s h =
      finish-Settled (reconcile_database w s).0 (reconcile_database w s).1
        (reconcile_database-Stored w s) h

  requeue_error-state : (e : GoError) (s : State) → (requeue_error w e s).1 ≡ s
  unfolding requeue_error pure fail
  requeue_error-state e s = ground arith

  report_error-reported :
      (e : GoError) (message : String) (s : State)
      → is_new_error (report_error w e message s).1.db.status message ≡ false
  unfolding report_error is_new_error effect current modify_status attempt ◌>>=◌
  report_error-reported e message s = ground (arith, eq_iff message message)

  proceed_requeue :
      (e : GoError) (r : Result (Unit {0})) (s : State)
      → (proceed r (λ _. requeue_error w e) s).1 ≡ s
  proceed_requeue e (ok _) s = requeue_error-state e s
  proceed_requeue e (err _) s = refl

  module _ (e : GoError) where
    abbrev text : String
    text = normalize_error_message (error_text e)

    unfoldable pub report_if_new : Bool → Step Unit
    report_if_new b = if b then report_error w e text else pure tt

    pub on_error-state :
        (s : State) → (on_error w e s).1 ≡ (report_if_new (is_new_error s.db.status text) s).1
    unfolding on_error current report_if_new ◌>>=◌
    on_error-state s =
        proceed_requeue e (report_if_new (is_new_error s.db.status text) s).0
          (report_if_new (is_new_error s.db.status text) s).1

    on_error_quiet : (s : State) → is_new_error s.db.status text ≡ false → (on_error w e s).1 ≡ s
    unfolding report_if_new pure
    on_error_quiet s h = on_error-state s ∙ rw h

    report_if_new-reported :
        (b : Bool) (s : State)
        → is_new_error s.db.status text ≡ b
        → is_new_error (report_if_new b s).1.db.status text ≡ false
    unfolding report_if_new pure
    report_if_new-reported true s h = report_error-reported e text s
    report_if_new-reported false s h = h

    -- Behind the handling of an error, the status says the error, whether it was written or not.
    on_error-reported : (s : State) → is_new_error (on_error w e s).1.db.status text ≡ false
    on_error-reported s = rw (on_error-state s) (report_if_new-reported _ s refl)

  -- A second failure with the same text, request ids aside, makes no call: nothing is written to the
  -- object and no event is sent, so that the failure does not trigger the next reconciliation.
  pub on_error_again :
      (e again : GoError) (s : State)
      → normalize_error_message (error_text again) ≡ normalize_error_message (error_text e)
      → (on_error w again (on_error w e s).1).1 ≡ (on_error w e s).1
  on_error_again e again s h =
      on_error_quiet again (on_error w e s).1 (rw h (on_error-reported e s))
