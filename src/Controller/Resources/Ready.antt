-- ===== src/Controller/Resources/Ready.antt =====
-- What is known while reconcileDatabase of internal/controller/database_controller.go is at work.
use database_user_operator.Base.{◌≡◌, ◌∙◌, false, inl, inr, Option, String}
use database_user_operator.World.{World}
use database_user_operator.Effects.{Calls, Effect}
use database_user_operator.Effects.Keeps.{Keeps}
use database_user_operator.Effects.Avoids.{Ignores, Kind}
use database_user_operator.Api.{Database, DatabaseStatus}
use database_user_operator.Database.Client.Given.{gives, given_password, given-Ignores}
use database_user_operator.Controller.State.{State, effect, current, modify_status, with_status}
use database_user_operator.Controller.Spec.{get_region}
use database_user_operator.Controller.Store.{moves}
use database_user_operator.Controller.Store.Moved.{Placed}

-- The status names no region or the one of the spec, or the spec names a region, and the calls have a
-- property.
abbrev pub Ready : World → (Calls → Type 0) → State → Type 0
Ready w Q s = Placed w s.db × Q s.calls

module _ (w : World) (Q : Calls → Type 0) where
  pub effect-Ready : {A : Type 0} (m : Effect A) → Keeps Q m → Keeps (Ready w Q) (effect m)
  unfolding effect
  effect-Ready m k = record { after = λ s h. (h.0, k.after s.calls h.1) }

  pub current-Ready : Keeps (Ready w Q) current
  unfolding current
  current-Ready = record { after = λ s h. h }

  status-Placed :
      (db : Database) (status : DatabaseStatus)
      → moves (with_status db status) ≡ moves db
      → Placed w db
      → Placed w (with_status db status)
  unfolding get_region
  status-Placed db status same (inl stays) = inl (same ∙ stays)
  status-Placed db status same (inr given) = inr given

  pub modify-Ready :
      (f : DatabaseStatus → DatabaseStatus)
      → ((db : Database) → moves (with_status db (f db.status)) ≡ moves db)
      → Keeps (Ready w Q) (modify_status f)
  unfolding modify_status
  modify-Ready f same = record {
    after = λ s h. (status-Placed s.db (f s.db.status) (same s.db) h.0, h.1);
  }

module _ (w : World) (u : String) (before : Option String) where
  -- The user has the password that it had.
  abbrev pub Unchanged : Calls → Type 0
  Unchanged calls = given_password w u calls ≡ before

  pub Unchanged-Ignores : (k : Kind) → gives k ≡ false → Ignores Unchanged k
  Unchanged-Ignores = given-Ignores w u (λ o. o ≡ before)
