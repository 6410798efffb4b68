-- ===== src/Controller/State.antt =====
-- The state of a reconciliation: the object in memory, which the functions of
-- internal/controller/database_controller.go change in place, and the calls that were made.
use database_user_operator.Base.{String, ok}
use database_user_operator.World.{World, Call}
use database_user_operator.Effects.{Action, Calls, Effect, perform, attempt, ◌>>=◌, ◌>>◌, pure}
use database_user_operator.Api.{Database, DatabaseStatus}

pub record State : Type 0 where
  pub db : Database
  pub calls : Calls

abbrev pub Step : Type 0 → Type 0
Step = Action State

-- A call leaves the object in memory alone.
unfoldable pub effect : {A : Type 0} → Effect A → Step A
effect m s = let (r, calls) = m s.calls in (r, record s { calls = calls })

-- The object as it is now.
unfoldable pub current : Step Database
current s = (ok s.db, s)

abbrev pub with_status : Database → DatabaseStatus → Database
with_status db status = record db { status = status }

-- Fields of the status are set.
unfoldable pub modify_status : (DatabaseStatus → DatabaseStatus) → Step Unit
modify_status f s = (ok tt, record s { db = record s.db { status = f s.db.status } })

-- r.Recorder.Event, which returns nothing.
unfoldable pub event : World → (event_type reason message : String) → Effect Unit
unfolding perform attempt ◌>>=◌
event w event_type reason message = do
  attempt (perform w (Call.record_event event_type reason message))
  pure tt
