-- ===== src/Controller/Lifecycle.antt =====
-- The life of a Database object, as the requests of Reconcile, of internal/controller/database_controller.go,
-- and those of its users change it in the API server.
pub mod Object
pub mod Kept
pub mod Stages
pub mod Reachable
pub mod Converges
use database_user_operator.Base.{
  ◌≡◌, Bool, true, false, ◌||◌, Option, none, some, String, List, [], ◌∷◌, Result, ok, err,
}
use database_user_operator.World
use database_user_operator.World.{World, Reply}
use database_user_operator.Effects.{Calls}
use database_user_operator.Api.{Database, DatabaseStatus}
use database_user_operator.Controller.Delete.{has_finalizer}
use database_user_operator.Controller.Reconcile.{reconcile_object}

-- What the API server does to an object, and what is documented of it: metadata.deletionTimestamp is
-- set by a deletion alone, an update does not reach the status of a resource with a status
-- subresource, an update of the status reaches nothing else, and an object stays while it has a
-- finalizer or is not being deleted.
pub record ApiServer : Type 0 where
  pub updated : (stored sent : Database) → Option Database
  pub status_updated : (stored sent : Database) → Database
  pub deleted : (stored : Database) → Option Database
  pub updated-deleted :
      (stored sent object : Database)
      → updated stored sent ≡ some object
      → object.metadata.deleted ≡ stored.metadata.deleted
  pub updated-finalizers :
      (stored sent object : Database)
      → updated stored sent ≡ some object
      → object.metadata.finalizers ≡ sent.metadata.finalizers
  pub updated-status :
      (stored sent object : Database)
      → updated stored sent ≡ some object
      → object.status ≡ stored.status
  pub updated-alive :
      (stored sent : Database)
      → stored.metadata.deleted ≡ false
      → (object : Database) × (updated stored sent ≡ some object)
  pub status_updated-metadata :
      (stored sent : Database) → (status_updated stored sent).metadata ≡ stored.metadata
  pub status_updated-status :
      (stored sent : Database) → (status_updated stored sent).status ≡ sent.status
  pub deleted-deleted :
      (stored object : Database) → deleted stored ≡ some object → object.metadata.deleted ≡ true
  pub deleted-stays :
      (stored : Database)
      → has_finalizer stored.metadata.finalizers ≡ true
      → (object : Database) × (deleted stored ≡ some object)

-- An accepted request changes the object that is stored, if there is one.
abbrev accepted :
    {A : Type 0} → Result A → (Database → Option Database) → Option Database → Option Database
accepted (ok a) change none = none
accepted (ok a) change (some db) = change db
accepted (err e) change object = object

module _ (server : ApiServer) (w : World) (start : Database) where
  -- The object behind the calls of a reconciliation that found `start`.
  unfoldable pub stored_object : Calls → Option Database
  stored_object [] = some start
  stored_object (World.update_object sent ∷ calls) =
      accepted (w.reply calls (World.update_object sent)) (λ stored. server.updated stored sent)
        (stored_object calls)
  stored_object (World.update_status sent ∷ calls) =
      accepted (w.reply calls (World.update_status sent))
        (λ stored. some (server.status_updated stored sent)) (stored_object calls)
  stored_object (c ∷ calls) = stored_object calls

  -- What a reconciliation makes of an object.
  abbrev pub reconciled : Option Database
  reconciled = stored_object (reconcile_object w (record { db = start; calls = [] })).1.calls

-- Something was created for the object.
abbrev pub started : DatabaseStatus → Bool
started status = status.user_created || (status.database_created || status.secret_created)

-- A user leaves the finalizer of the operator; other finalizers may come and go.
abbrev pub KeepsFinalizer : Database → Database → Type 0
KeepsFinalizer db db' =
    has_finalizer db.metadata.finalizers ≡ true → has_finalizer db'.metadata.finalizers ≡ true

-- A user takes the finalizer of the operator away, behind which an object that is being deleted may
-- be gone.
abbrev pub Stripped : Database → Option Database → Type 0
Stripped db none = db.metadata.deleted ≡ true
Stripped db (some db') =
    (db'.metadata.deleted ≡ db.metadata.deleted)
    × (has_finalizer db'.metadata.finalizers ≡ false)
    × (db'.status ≡ db.status)

-- The steps of an object: of its users, but for those that take the finalizer away, and of the
-- operator, with any environment. An edit of the last other finalizer of an object that is being
-- deleted may remove it.
pub data Step (server : ApiServer) : Option Database → Option Database → Type 0 where
  create :
      (db : Database)
      → db.metadata.deleted ≡ false
      → started db.status ≡ false
      → Step server none (some db)
  edit :
      (db db' : Database)
      → db'.metadata.deleted ≡ db.metadata.deleted
      → KeepsFinalizer db db'
      → db'.status ≡ db.status
      → Step server (some db) (some db')
  edit_away :
      (db : Database)
      → db.metadata.deleted ≡ true
      → has_finalizer db.metadata.finalizers ≡ false
      → Step server (some db) none
  delete : (db : Database) → Step server (some db) (server.deleted db)
  reconcile : (w : World) (db : Database) → Step server (some db) (reconciled server w db)

-- From no object, by steps; the test says whether a user took the finalizer away on the way.
pub data Reach (server : ApiServer) : Bool → Option Database → Type 0 where
  start : Reach server false none
  next :
      (b : Bool) (o o' : Option Database) → Reach server b o → Step server o o' → Reach server b o'
  strip :
      (b : Bool) (db : Database) (o : Option Database)
      → Reach server b (some db)
      → Stripped db o
      → Reach server true o
