-- ===== src/Controller/Lifecycle/Converges.antt =====
-- How many reconciliations a new object takes.
use database_user_operator.Base.{
  ◌≡◌, refl, ap, ◌∙◌, sym, true, false, Option, none, some, [], Result, ok, err,
}
use database_user_operator.World
use database_user_operator.World.{World}
use database_user_operator.Effects.{Calls, attempt, ◌>>=◌}
use database_user_operator.Effects.Ensures.{Ensures}
use database_user_operator.Effects.Avoids.{sql, kube, session}
use database_user_operator.Effects.Avoids
use database_user_operator.Api.{Database}
use database_user_operator.Controller.State.{State}
use database_user_operator.Controller.Spec.{needs_reconciliation}
use database_user_operator.Controller.Delete.{has_finalizer}
use database_user_operator.Controller.Resources.{reconcile_database}
use database_user_operator.Controller.Resources.Calls.{reconcile_database-Trace}
use database_user_operator.Controller.Resources.Laws.{Stored, reconcile_database-Stored}
use database_user_operator.Controller.Resources.Object.{reconcile_database-Same}
use database_user_operator.Controller.Reconcile.{add_finalizer, reconcile_live, finish}
use database_user_operator.Controller.Reconcile.Laws.{ready, not_needed}
use database_user_operator.Controller.Reconcile.Branches.{
  has_finalizer-append, dispatch_adds_finalizer, on_success-calls,
}
use database_user_operator.Controller.Lifecycle.{ApiServer, accepted, stored_object, reconciled}
use database_user_operator.Controller.Lifecycle.Object.{Metadata, Behind, Behind-Ignores}
use database_user_operator.Controller.Lifecycle.Kept.{
  reconcile_object-dispatch, stored-announced, dispatch-live,
}

-- The object needs no work, and its status says so.
abbrev pub IsSettled : Option Database → Type 0
IsSettled none = ⊥
IsSettled (some db) = (needs_reconciliation db ≡ false) × (db.status.phase ≡ "Ready")

module _ (server : ApiServer) (w : World) (db : Database) where
  abbrev Intact : Calls → Type 0
  Intact = Behind server w db ⊥ (λ m. m ≡ db.metadata)

  -- The status that is written behind work that succeeded.
  written-IsSettled :
      (s : State) (r : Result (Unit {0})) (o : Option Database)
      → Stored s
      → s.db.metadata ≡ db.metadata
      → Metadata ⊥ (λ m. m ≡ db.metadata) o
      → r ≡ ok tt
      → IsSettled (accepted r (λ stored. some (server.status_updated stored (ready s.db))) o)
  written-IsSettled s r none h m i e = absurd i
  written-IsSettled s (err f) (some found) h m i e = cc
  written-IsSettled s (ok _) (some found) (u, d, c, v) m i e =
      let object = server.status_updated found (ready s.db) in
      let status = server.status_updated-status found (ready s.db) in
      (
        not_needed w object (ap (λ t. t.user_created) status ∙ u)
            (ap (λ t. t.database_created) status ∙ d) (ap (λ t. t.secret_created) status ∙ c)
            (ap (λ t. t.secret_format_version) status ∙ v)
            (ap (λ t. t.observed_generation) status
              ∙ ap (λ n. n.generation) m
              ∙ sym
                  (ap (λ n. n.generation) (server.status_updated-metadata found (ready s.db) ∙ i))),
        ap (λ t. t.phase) status,
      )

  module _
      (accepts : (calls : Calls) (sent : Database)
        → w.reply calls (World.update_status sent) ≡ ok tt) where
    finish-IsSettled :
        (r : Result (Unit {0})) (s : State)
        → r ≡ ok tt
        → Ensures Stored (r, s)
        → s.db.metadata ≡ db.metadata
        → Intact s.calls
        → IsSettled (stored_object server w db (finish w r s).1.calls)
    unfolding finish stored_object
    finish-IsSettled (err e) s o h m i = cc
    finish-IsSettled (ok _) s o h m i =
        rw (on_success-calls w s) (written-IsSettled s _ _ h m i (accepts s.calls (ready s.db)))

    intact : (s : State) → Intact s.calls → Intact (reconcile_database w s).1.calls
    intact =
        let other = Behind-Ignores server w db ⊥ (λ m. m ≡ db.metadata) in
        (reconcile_database-Trace w Intact (other Avoids.secret refl) (other sql refl)
          (other kube refl) (other Avoids.password refl) (other Avoids.write refl)
          (other Avoids.delete refl) (other session refl)).after

    live-IsSettled :
        (calls : Calls)
        → stored_object server w db calls ≡ some db
        → (reconcile_database w (record { db = db; calls = calls })).0 ≡ ok tt
        → IsSettled (
            stored_object server w db
              (reconcile_live w (record { db = db; calls = calls })).1.calls)
    unfolding reconcile_live attempt ◌>>=◌
    live-IsSettled calls same works =
        let s : State = record { db = db; calls = calls } in
        finish-IsSettled (reconcile_database w s).0 (reconcile_database w s).1 works
          (reconcile_database-Stored w s)
          ((reconcile_database-Same w db.metadata db.spec).after s (refl, refl)).0
          (intact s (rw same refl))

    -- An object that has the finalizer is settled by one reconciliation whose work succeeds.
    pub managed-IsSettled :
        db.metadata.deleted ≡ false
        → has_finalizer db.metadata.finalizers ≡ true
        → ((calls : Calls) → (reconcile_database w (record { db = db; calls = calls })).0 ≡ ok tt)
        → IsSettled (reconciled server w db)
    managed-IsSettled alive has works =
        let (calls, e, a) = reconcile_object-dispatch w (record { db = db; calls = [] }) in
        rw (e, dispatch-live w (record { db = db; calls = calls }) alive has)
          (live-IsSettled calls (stored-announced server w db calls a) (works calls))

  -- The first reconciliation of an object leaves what the API server makes of it.
  adopted :
      db.metadata.deleted ≡ false
      → has_finalizer db.metadata.finalizers ≡ false
      → ((calls : Calls) → w.reply calls (World.update_object (add_finalizer db)) ≡ ok tt)
      → reconciled server w db ≡ server.updated db (add_finalizer db)
  unfolding stored_object
  adopted alive missing accepts =
      let (calls, e, a) = reconcile_object-dispatch w (record { db = db; calls = [] }) in
      rw
        (
          e,
          (dispatch_adds_finalizer w (record { db = db; calls = calls }) alive missing).0,
          stored-announced server w db calls a,
          accepts calls,
        )
        refl

-- A new object that is alive takes two reconciliations. The API server accepts the write of the
-- first, and makes `adopted_db` of the object; the work of the second succeeds, and the API server
-- accepts its write of the status. Then the first leaves `adopted_db`, and the second leaves an object
-- that needs no work and whose status says Ready.
pub settles_in_two :
    (server : ApiServer) (w w' : World) (db adopted_db : Database)
    → db.metadata.deleted ≡ false
    → has_finalizer db.metadata.finalizers ≡ false
    → ((calls : Calls) → w.reply calls (World.update_object (add_finalizer db)) ≡ ok tt)
    → server.updated db (add_finalizer db) ≡ some adopted_db
    → ((calls : Calls)
        → (reconcile_database w' (record { db = adopted_db; calls = calls })).0 ≡ ok tt)
    → ((calls : Calls) (sent : Database) → w'.reply calls (World.update_status sent) ≡ ok tt)
    → (reconciled server w db ≡ some adopted_db) × IsSettled (reconciled server w' adopted_db)
unfolding add_finalizer
settles_in_two server w w' db found alive missing accepts e works accepts_status = (
  adopted server w db alive missing accepts ∙ e,
  managed-IsSettled server w' found accepts_status
      (server.updated-deleted db (add_finalizer db) found e ∙ alive)
      (ap has_finalizer (server.updated-finalizers db (add_finalizer db) found e)
        ∙ has_finalizer-append db.metadata.finalizers)
      works,
)
