-- ===== src/Controller/Lifecycle/Stages.antt =====
-- The stages of the life of an object between which Reconcile moves it.
use database_user_operator.Base.{◌≡◌, refl, ap, sym, ℕ, Bool, true, false, not, some, [], Result}
use mathlib.Core.Path.{subst}
use database_user_operator.World
use database_user_operator.World.{World, Call}
use database_user_operator.Effects.{Calls, pure, ◌>>=◌}
use database_user_operator.Effects.Steps.{if-at}
use database_user_operator.Api.{Database}
use database_user_operator.Controller.State.{State, effect, current}
use database_user_operator.Controller.Delete.{has_finalizer, reconcile_delete}
use database_user_operator.Controller.Reconcile.{add_finalizer, dispatch}
use database_user_operator.Controller.Reconcile.Branches.{dispatch_adds_finalizer}
use database_user_operator.Controller.Lifecycle.{ApiServer, stored_object, reconciled}
use database_user_operator.Controller.Lifecycle.Kept.{
  stage, Moves, stay, reconcile_object-dispatch, dispatch-live, stored-announced, unchanged-Moves,
  ending-Moves, live-Unchanged, delete-Ending, stage_of, adopted-Moves,
}

module _ (server : ApiServer) (w : World) (db : Database) where
  -- The branches of the function for an object whose calls so far left it as it is.
  module _ (calls : Calls) (same : stored_object server w db calls ≡ some db) where
    abbrev before : State
    before = record { db = db; calls = calls }

    abbrev Moved : Result ℕ × State → Type 0
    Moved r = Moves (stage (some db)) (stage (stored_object server w db r.1.calls))

    managed-Moves :
        db.metadata.deleted ≡ false
        → has_finalizer db.metadata.finalizers ≡ true
        → Moved (dispatch w before)
    managed-Moves alive has =
        subst Moved (sym (dispatch-live w before alive has))
          (unchanged-Moves server w db _ ((live-Unchanged server w db).after before (rw same refl)))

    bare-Moves :
        db.metadata.deleted ≡ false
        → has_finalizer db.metadata.finalizers ≡ false
        → Moved (dispatch w before)
    unfolding stored_object
    bare-Moves alive missing =
        let (e, has) = dispatch_adds_finalizer w before alive missing in
        rw (e, stage_of server w db false false alive missing, same)
          (adopted-Moves server w db (w.reply calls (World.update_object (add_finalizer db))) alive
            missing has)

    deleting-Moves :
        db.metadata.deleted ≡ true
        → has_finalizer db.metadata.finalizers ≡ true
        → Moved (dispatch w before)
    unfolding dispatch current effect ◌>>=◌
    deleting-Moves gone has = subst Moved (sym (if-at db.metadata.deleted true _ _ before gone)) (
        rw (stage_of server w db true true gone has)
          (ending-Moves server w db _ ((delete-Ending server w db).after calls (rw same gone))))

    released-Moves :
        db.metadata.deleted ≡ true
        → has_finalizer db.metadata.finalizers ≡ false
        → Moved (dispatch w before)
    unfolding dispatch current effect reconcile_delete pure ◌>>=◌
    released-Moves gone missing =
        subst Moved (sym (if-at db.metadata.deleted true _ _ before gone)) (
          subst Moved
            (sym (
              ap (λ r. (r.0, record { db = db; calls = r.1 }))
                (if-at (not (has_finalizer db.metadata.finalizers)) true _ _ calls
                  (ap not missing))))
            (rw same (stay (stage (some db)))))

    dispatch-Moves :
        (is_deleted has : Bool)
        → db.metadata.deleted ≡ is_deleted
        → has_finalizer db.metadata.finalizers ≡ has
        → Moved (dispatch w before)
    dispatch-Moves false true = managed-Moves
    dispatch-Moves false false = bare-Moves
    dispatch-Moves true true = deleting-Moves
    dispatch-Moves true false = released-Moves

-- Whatever the environment replies, a reconciliation moves the object in the API server along one
-- of these arrows or leaves its stage: an object that is alive may gain the finalizer and never
-- loses it, and only an object that is being deleted may lose it, or be gone.
pub reconciled-Moves :
    (server : ApiServer) (w : World) (db : Database)
    → Moves (stage (some db)) (stage (reconciled server w db))
reconciled-Moves server w db =
    let (calls, e, a) = reconcile_object-dispatch w (record { db = db; calls = [] }) in
    rw e (
      dispatch-Moves server w db calls (stored-announced server w db calls a) db.metadata.deleted
        (has_finalizer db.metadata.finalizers) refl refl)
