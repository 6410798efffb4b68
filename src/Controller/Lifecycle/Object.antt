-- ===== src/Controller/Lifecycle/Object.antt =====
-- What the calls of a reconciliation make of the object in the API server.
use database_user_operator.Base.{
  ◌≡◌, ap, ◌∙◌, Bool, true, false, Option, none, some, ◌∷◌, Result, ok, err,
}
use database_user_operator.World
use database_user_operator.World.{World, Call}
use database_user_operator.Effects.{Calls}
use database_user_operator.Effects.Avoids.{Ignores, Kind, kind, object}
use database_user_operator.Api.{ObjectMeta, Database}
use database_user_operator.Controller.Lifecycle.{ApiServer, accepted, stored_object}

abbrev writes_object : Kind → Bool
writes_object object = true
writes_object _ = false

-- The object is there, and its metadata have a property, or it is gone.
abbrev pub Metadata : (gone : Type 0) → (ObjectMeta → Type 0) → Option Database → Type 0
Metadata gone Q none = gone
Metadata gone Q (some db) = Q db.metadata

module _ (server : ApiServer) (w : World) (start : Database) (gone : Type 0)
    (Q : ObjectMeta → Type 0) where
  abbrev pub Behind : Calls → Type 0
  Behind calls = Metadata gone Q (stored_object server w start calls)

  status-Metadata :
      {A : Type 0} (r : Result A) (sent : Database) (o : Option Database)
      → Metadata gone Q o
      → Metadata gone Q (accepted r (λ stored. some (server.status_updated stored sent)) o)
  status-Metadata (ok a) sent none h = h
  status-Metadata (ok a) sent (some db) h = rw (server.status_updated-metadata db sent) h
  status-Metadata (err e) sent o h = h

  -- No call but an update of the object reaches its metadata.
  other_kept :
      (c : Call) (calls : Calls)
      → writes_object (kind c) ≡ false
      → Behind calls
      → Behind (c ∷ calls)
  unfolding stored_object
  other_kept (World.update_object sent) calls e h = cc
  other_kept (World.update_status sent) calls e h = status-Metadata _ sent _ h
  other_kept _ calls e h = h

  pub Behind-Ignores : (k : Kind) → writes_object k ≡ false → Ignores Behind k
  Behind-Ignores k h = record {
    more = λ c calls e p. other_kept c calls (ap writes_object e ∙ h) p;
  }
