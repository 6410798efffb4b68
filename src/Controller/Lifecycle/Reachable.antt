-- ===== src/Controller/Lifecycle/Reachable.antt =====
-- What holds of every object that users and Reconcile can bring about.
use database_user_operator.Base.{
  ◌≡◌, refl, ap, ◌∙◌, sym, Bool, true, false, Option, none, some, [], Result, ok, err, ◌⊎◌, inl,
  inr,
}
use database_user_operator.World
use database_user_operator.World.{World}
use database_user_operator.Api.{Database, DatabaseStatus}
use database_user_operator.Controller.Delete.{has_finalizer}
use database_user_operator.Controller.Reconcile.{add_finalizer}
use database_user_operator.Controller.Reconcile.Branches.{dispatch_adds_finalizer}
use database_user_operator.Controller.Lifecycle.{
  ApiServer, accepted, stored_object, reconciled, started, Step, create, edit, edit_away, delete,
  reconcile, strip, Reach, start, next,
}
use database_user_operator.Controller.Lifecycle.Kept.{
  Stage, stage, stage_with, Moves, stay, gains_finalizer, loses_finalizer, vanishes, bare,
  reconcile_object-dispatch, stored-announced,
}
use database_user_operator.Controller.Lifecycle.Stages.{reconciled-Moves}

-- If something was created for the object, it has the finalizer or is being deleted.
abbrev pub Protected : Option Database → Type 0
Protected none = Unit
Protected (some db) =
    started db.status ≡ true
    → (has_finalizer db.metadata.finalizers ≡ true) ⊎ (db.metadata.deleted ≡ true)

module _ (server : ApiServer) where
  -- The status of the object is as it was.
  abbrev SameStatus : DatabaseStatus → Option Database → Type 0
  SameStatus status none = Unit
  SameStatus status (some db) = db.status ≡ status

  updated-SameStatus :
      {A : Type 0} (r : Result A) (stored sent : Database)
      → SameStatus stored.status (accepted r (λ db. server.updated db sent) (some stored))
  updated-SameStatus (err e) stored sent = refl
  updated-SameStatus (ok a) stored sent = seen (server.updated stored sent) refl
    where
      seen : (o : Option Database) → server.updated stored sent ≡ o → SameStatus stored.status o
      seen none e = tt
      seen (some found) e = server.updated-status stored sent found e

  bare-SameStatus :
      (w : World) (db : Database)
      → db.metadata.deleted ≡ false
      → has_finalizer db.metadata.finalizers ≡ false
      → SameStatus db.status (reconciled server w db)
  unfolding stored_object
  bare-SameStatus w db alive missing =
      let (calls, e, a) = reconcile_object-dispatch w (record { db = db; calls = [] }) in
      rw
        (
          e,
          (dispatch_adds_finalizer w (record { db = db; calls = calls }) alive missing).0,
          stored-announced server w db calls a,
        )
        (updated-SameStatus (w.reply calls (World.update_object (add_finalizer db))) db
          (add_finalizer db))

  -- Stages in which the operator is not lost.
  abbrev safe : Stage → Bool
  safe bare = false
  safe _ = true

  Moves-safe : (s t : Stage) → Moves s t → safe s ≡ true → safe t ≡ true
  Moves-safe _ _ (stay s) h = h
  Moves-safe _ _ gains_finalizer h = refl
  Moves-safe _ _ loses_finalizer h = refl
  Moves-safe _ _ vanishes h = refl

  safe_with :
      (is_deleted has : Bool)
      → safe (stage_with is_deleted has) ≡ true
      → (has ≡ true) ⊎ (is_deleted ≡ true)
  safe_with false true h = inl refl
  safe_with true has h = inr refl
  safe_with false false h = cc

  unsafe_with :
      (is_deleted has : Bool)
      → safe (stage_with is_deleted has) ≡ false
      → (is_deleted ≡ false) × (has ≡ false)
  unsafe_with false false h = (refl, refl)
  unsafe_with false true h = cc
  unsafe_with true false h = cc
  unsafe_with true true h = cc

  safe-Protected : (o : Option Database) → safe (stage o) ≡ true → Protected o
  safe-Protected none h = tt
  safe-Protected (some db) h = λ _. safe_with _ _ h

  -- Nothing was created for an object that the operator does not protect.
  same-Protected :
      (db : Database) (o : Option Database)
      → db.metadata.deleted ≡ false
      → has_finalizer db.metadata.finalizers ≡ false
      → Protected (some db)
      → SameStatus db.status o
      → Protected o
  same-Protected db none alive missing p h = tt
  same-Protected db (some found) alive missing p h = λ s. contradiction (p (ap started (sym h) ∙ s))
    where
      contradiction :
          {B : Type 0}
          → (has_finalizer db.metadata.finalizers ≡ true) ⊎ (db.metadata.deleted ≡ true)
          → B
      contradiction (inl has) = cc
      contradiction (inr gone) = cc

  reconciled-Protected :
      (w : World) (db : Database) (b : Bool)
      → safe (stage (some db)) ≡ b
      → Protected (some db)
      → Protected (reconciled server w db)
  reconciled-Protected w db true h p =
      safe-Protected _ (Moves-safe _ _ (reconciled-Moves server w db) h)
  reconciled-Protected w db false h p =
      let (alive, missing) = unsafe_with _ _ h in
      same-Protected db _ alive missing p (bare-SameStatus w db alive missing)

  deleted-Protected : (db : Database) → Protected (server.deleted db)
  deleted-Protected db = seen (server.deleted db) refl
    where
      seen : (o : Option Database) → server.deleted db ≡ o → Protected o
      seen none e = tt
      seen (some found) e = λ _. inr (server.deleted-deleted db found e)

  step-Protected : (o o' : Option Database) → Step server o o' → Protected o → Protected o'
  step-Protected _ _ (create db alive unstarted) p = λ s. cc
  step-Protected _ _ (edit db db' d f same) p = λ s. edited (p (ap started (sym same) ∙ s))
    where
      edited :
          (has_finalizer db.metadata.finalizers ≡ true) ⊎ (db.metadata.deleted ≡ true)
          → (has_finalizer db'.metadata.finalizers ≡ true) ⊎ (db'.metadata.deleted ≡ true)
      edited (inl has) = inl (f has)
      edited (inr gone) = inr (d ∙ gone)
  step-Protected _ _ (edit_away db gone missing) p = tt
  step-Protected _ _ (delete db) p = deleted-Protected db
  step-Protected _ _ (reconcile w db) p = reconciled-Protected w db _ refl p

  pub Reach-Protected :
      (b : Bool) (o : Option Database) → Reach server b o → b ≡ false → Protected o
  Reach-Protected _ _ start h = tt
  Reach-Protected _ _ (next b before o reached step) h =
      step-Protected before o step (Reach-Protected b before reached h)
  Reach-Protected _ _ (strip b db o reached stripped) h = cc

-- Users create, edit and delete an object, but none of them takes the operator's finalizer away. An
-- object that they and the operator brought about, for which something was created, and that is not
-- being deleted, has the finalizer, so that a deletion does not remove it: it is there
-- afterwards, marked as being deleted, for the operator to clean up.
pub reachable-Protected :
    (server : ApiServer) (db : Database)
    → Reach server false (some db)
    → started db.status ≡ true
    → db.metadata.deleted ≡ false
    → (has_finalizer db.metadata.finalizers ≡ true)
      × ((found : Database) × (server.deleted db ≡ some found) × (found.metadata.deleted ≡ true))
reachable-Protected server db reached began alive =
    protects (Reach-Protected server false (some db) reached refl began)
  where
    protects :
        (has_finalizer db.metadata.finalizers ≡ true) ⊎ (db.metadata.deleted ≡ true)
        → (has_finalizer db.metadata.finalizers ≡ true)
          × ((found : Database) × (server.deleted db ≡ some found)
              × (found.metadata.deleted ≡ true))
    protects (inl has) =
        let (found, e) = server.deleted-stays db has in
        (has, (found, e, server.deleted-deleted db found e))
    protects (inr gone) = cc
