-- ===== src/Controller/Lifecycle/Kept.antt =====
-- The stages of an object in the API server, and what the parts of Reconcile, of
-- internal/controller/database_controller.go, keep of them.
use database_user_operator.Base.{
  ◌≡◌, refl, ap, ◌∙◌, Bool, true, false, not, Option, none, some, [], ◌∷◌, Result, ok, err,
  if◌then◌else◌, ◌⊎◌, inl, inr, ◌=ℕ◌,
}
use database_user_operator.World
use database_user_operator.World.{World, Call}
use database_user_operator.Effects.{Calls, perform, pure, attempt, ◌>>=◌}
use database_user_operator.Effects.Keeps.{Keeps, Keeps-bind, Keeps-pure}
use database_user_operator.Effects.Steps.{if-at}
use database_user_operator.Effects.Avoids.{Ignores, Kind, sql, kube, session, object}
use database_user_operator.Effects.Avoids
use database_user_operator.Api.{Database}
use database_user_operator.Controller.State.{State, effect, current, event}
use database_user_operator.Controller.Calls.{Trace}
use database_user_operator.Controller.Delete.{has_finalizer, release, reconcile_delete}
use database_user_operator.Controller.Delete.Calls.{reconcile_delete-Keeps}
use database_user_operator.Controller.Resources.Calls.{reconcile_database-Trace}
use database_user_operator.Controller.Reconcile.{
  add_finalizer, dispatch, reconcile_object, reconcile_live,
}
use database_user_operator.Controller.Reconcile.Calls.{reconcile_live-Trace}
use database_user_operator.Controller.Lifecycle.{ApiServer, accepted, stored_object}
use database_user_operator.Controller.Lifecycle.Object.{Metadata, Behind, Behind-Ignores}

-- No object; alive without and with the finalizer; being deleted with and without it.
pub data Stage : Type 0 where
  absent bare managed deleting released : Stage

abbrev pub stage_with : (is_deleted has : Bool) → Stage
stage_with false false = bare
stage_with false true = managed
stage_with true true = deleting
stage_with true false = released

abbrev pub stage : Option Database → Stage
stage none = absent
stage (some db) = stage_with db.metadata.deleted (has_finalizer db.metadata.finalizers)

-- What a reconciliation may do to the stage of an object.
pub data Moves : Stage → Stage → Type 0 where
  stay : (s : Stage) → Moves s s
  gains_finalizer : Moves bare managed
  loses_finalizer : Moves deleting released
  vanishes : Moves deleting absent

module _ (w : World) (s : State) where
  -- Nothing, or the event of the creation.
  abbrev IsAnnounced : Calls → Type 0
  IsAnnounced calls =
      (calls ≡ s.calls)
      ⊎ (calls ≡ World.record_event "Normal" "Created" "Database created" ∷ s.calls)

  announced :
      (b : Bool)
      → (calls : Calls) × ((if b then event w "Normal" "Created" "Database created" else pure tt)
            s.calls
          ≡ (ok tt, calls))
        × IsAnnounced calls
  unfolding event attempt perform pure ◌>>=◌
  announced true = (_, refl, inr refl)
  announced false = (_, refl, inl refl)

  -- The rest of Reconcile follows the event of the creation.
  pub reconcile_object-dispatch :
      (calls : Calls) × (reconcile_object w s ≡ dispatch w (record { db = s.db; calls = calls }))
      × IsAnnounced calls
  unfolding reconcile_object current effect ◌>>=◌
  reconcile_object-dispatch =
      let (calls, e, h) = announced (s.db.status.observed_generation =ℕ 0) in (calls, rw e refl, h)

  -- An object that is alive and has the finalizer is worked on.
  pub dispatch-live :
      s.db.metadata.deleted ≡ false
      → has_finalizer s.db.metadata.finalizers ≡ true
      → dispatch w s ≡ reconcile_live w s
  unfolding dispatch current ◌>>=◌
  dispatch-live alive has =
      if-at s.db.metadata.deleted false _ _ s alive
      ∙ if-at (not (has_finalizer s.db.metadata.finalizers)) false _ _ s (ap not has)

module _ (server : ApiServer) (w : World) (db : Database) where
  -- The event leaves the object.
  pub stored-announced :
      (calls : Calls)
      → IsAnnounced w (record { db = db; calls = [] }) calls
      → stored_object server w db calls ≡ some db
  unfolding stored_object
  stored-announced calls (inl e) = rw e refl
  stored-announced calls (inr e) = rw e refl

  -- The metadata are as they were.
  abbrev Unchanged : Calls → Type 0
  Unchanged = Behind server w db ⊥ (λ m. m ≡ db.metadata)

  -- The object is still being deleted, or it is gone.
  abbrev Ending : Calls → Type 0
  Ending = Behind server w db Unit (λ m. m.deleted ≡ true)

  stage-Unchanged :
      (o : Option Database) → Metadata ⊥ (λ m. m ≡ db.metadata) o → stage o ≡ stage (some db)
  stage-Unchanged none h = absurd h
  stage-Unchanged (some found) h = rw h refl

  pub unchanged-Moves :
      (o : Option Database)
      → Metadata ⊥ (λ m. m ≡ db.metadata) o
      → Moves (stage (some db)) (stage o)
  unchanged-Moves o h = rw (stage-Unchanged o h) (stay (stage (some db)))

  pub ending-Moves :
      (o : Option Database) → Metadata Unit (λ m. m.deleted ≡ true) o → Moves deleting (stage o)
  ending-Moves none h = vanishes
  ending-Moves (some found) h = rw h (either (has_finalizer found.metadata.finalizers))
    where
      either : (b : Bool) → Moves deleting (stage_with true b)
      either true = stay deleting
      either false = loses_finalizer

  pub live-Unchanged : Keeps (Trace Unchanged) (reconcile_live w)
  live-Unchanged =
      let other = Behind-Ignores server w db ⊥ (λ m. m ≡ db.metadata) in
      reconcile_live-Trace w Unchanged (other kube refl) (
        reconcile_database-Trace w Unchanged (other Avoids.secret refl) (other sql refl)
          (other kube refl) (other Avoids.password refl) (other Avoids.write refl)
          (other Avoids.delete refl) (other session refl))

  updated-Ending :
      {A : Type 0} (r : Result A) (sent : Database) (o : Option Database)
      → Metadata Unit (λ m. m.deleted ≡ true) o
      → Metadata Unit (λ m. m.deleted ≡ true) (accepted r (λ stored. server.updated stored sent) o)
  updated-Ending (err e) sent o h = h
  updated-Ending (ok a) sent none h = tt
  updated-Ending (ok a) sent (some stored) h = seen (server.updated stored sent) refl
    where
      seen :
          (o : Option Database)
          → server.updated stored sent ≡ o
          → Metadata Unit (λ m. m.deleted ≡ true) o
      seen none e = tt
      seen (some found) e = server.updated-deleted stored sent found e ∙ h

  release-Ending : Keeps Ending (release w db)
  unfolding release perform stored_object
  release-Ending =
      Keeps-bind _ _ (record { after = λ calls h. updated-Ending _ _ _ h }) (λ _. Keeps-pure 0)

  pub delete-Ending : Keeps Ending (reconcile_delete w db)
  delete-Ending =
      let other = Behind-Ignores server w db Unit (λ m. m.deleted ≡ true) in
      reconcile_delete-Keeps w Ending (other Avoids.secret refl) (other Avoids.delete refl)
        (other kube refl) (other sql refl) (other Avoids.drop refl) (other session refl) db
        release-Ending

  pub stage_of :
      (is_deleted has : Bool)
      → db.metadata.deleted ≡ is_deleted
      → has_finalizer db.metadata.finalizers ≡ has
      → stage (some db) ≡ stage_with is_deleted has
  stage_of is_deleted has d f = rw (d, f) refl

  -- The object behind a write that adds the finalizer to an object that is alive.
  pub adopted-Moves :
      {A : Type 0} (r : Result A)
      → db.metadata.deleted ≡ false
      → has_finalizer db.metadata.finalizers ≡ false
      → has_finalizer (add_finalizer db).metadata.finalizers ≡ true
      → Moves bare
          (stage (accepted r (λ stored. server.updated stored (add_finalizer db)) (some db)))
  adopted-Moves (err e) alive missing has = rw (alive, missing) (stay bare)
  adopted-Moves (ok a) alive missing has =
      written (server.updated-alive db (add_finalizer db) alive)
    where
      written :
          ((found : Database) × (server.updated db (add_finalizer db) ≡ some found))
          → Moves bare (stage (server.updated db (add_finalizer db)))
      written (found, e) =
          rw
            (
              e,
              server.updated-deleted db (add_finalizer db) found e,
              alive,
              server.updated-finalizers db (add_finalizer db) found e,
              has,
            )
            gains_finalizer
