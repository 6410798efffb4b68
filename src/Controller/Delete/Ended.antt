-- ===== src/Controller/Delete/Ended.antt =====
-- How a run of reconcileDelete of internal/controller/database_controller.go may end.
use database_user_operator.Base.{◌≡◌, refl, false, List, [], ◌∷◌, GoError, ok, ◌⊎◌, inl, inr}
use database_user_operator.World.{World, Call, update_object}
use database_user_operator.Effects.{Calls}
use database_user_operator.Effects.Keeps.{Keeps, Keeps-bind, Keeps-pure}
use database_user_operator.Effects.Avoids.{
  Ignores, Kind, kind, by_kind, Avoids, Ignores-Avoids, Keeps-perform, object,
}
use database_user_operator.Effects.Triples.{Triple, Triple-fail, Triple-Keeps, Triple-adapt}
use database_user_operator.Api.{Database}
use database_user_operator.Database.Client.{Client}
use database_user_operator.Controller.Source.{get_connection_string}
use database_user_operator.Controller.Delete.{release, conclude}
use database_user_operator.Controller.Delete.Calls.{writes}
use database_user_operator.Controller.Delete.Gone.{WhenNone, SecretGone, DatabaseGone, UserGone}

-- The object was not written.
abbrev pub NoWrite : Calls → Type 0
NoWrite = Avoids (by_kind writes)

module _ (w : World) (db : Database) where
  -- Nothing is left on the server: both were cleaned up, or the secret that should hold the
  -- administrator's connection string holds the empty text.
  abbrev pub ServerClean : Calls → Type 0
  ServerClean calls =
      ((get_connection_string w db []).0 ≡ ok "")
      ⊎ ((dc : Client) × DatabaseGone w db dc calls × UserGone w db dc calls)

  abbrev pub Clean : Calls → Type 0
  Clean calls = ServerClean calls × SecretGone w db calls

  -- The object was not written, or all is clean.
  abbrev pub Ended : Calls → Type 0
  Ended calls = NoWrite calls ⊎ Clean calls

  ServerClean-Ignores : (k : Kind) → Ignores ServerClean k
  ServerClean-Ignores k = record { more = more }
    where
      more : (c : Call) (calls : Calls) → kind c ≡ k → ServerClean calls → ServerClean (c ∷ calls)
      more c calls e (inl h) = inl h
      more c calls e (inr (dc, d, u)) = inr (dc, inr d, inr u)

  Clean-Ignores : (k : Kind) → Ignores Clean k
  Clean-Ignores k = record {
    more = λ c calls e h. ((ServerClean-Ignores k).more c calls e h.0, inr h.1);
  }

  pub Ended-Ignores : (k : Kind) → writes k ≡ false → Ignores Ended k
  Ended-Ignores k n = record { more = more }
    where
      more : (c : Call) (calls : Calls) → kind c ≡ k → Ended calls → Ended (c ∷ calls)
      more c calls e (inl h) = inl ((Ignores-Avoids writes k n).more c calls e h)
      more c calls e (inr h) = inr ((Clean-Ignores k).more c calls e h)

  -- Before the end: the object was not written, and the server is clean if there was no error.
  abbrev pub Known : List GoError → Calls → Type 0
  Known errors calls = NoWrite calls × WhenNone ServerClean errors calls

  pub Known-Ignores :
      (errors : List GoError) (k : Kind) → writes k ≡ false → Ignores (Known errors) k
  Known-Ignores errors k n = record {
    more = λ c calls e h. (
      (Ignores-Avoids writes k n).more c calls e h.0,
      λ m. (ServerClean-Ignores k).more c calls e (h.1 m),
    );
  }

  release-Clean : Keeps Clean (release w db)
  unfolding release
  release-Clean =
      Keeps-bind _ _ (Keeps-perform w (update_object _) (Clean-Ignores object)) (λ _. Keeps-pure 0)

  -- The object is written only if no error was collected.
  pub conclude-Triple :
      (errors : List GoError)
      → Triple
          (λ calls. NoWrite calls × WhenNone Clean errors calls)
          (conclude w db errors)
          (λ _. Ended)
          Ended
  unfolding conclude
  conclude-Triple [] =
      Triple-adapt (λ _. Clean) Clean (λ _. Ended) Ended _ (λ calls h. h.1 refl)
        (Triple-Keeps Clean _ release-Clean) (λ a calls h. inr h) (λ calls h. inr h)
  conclude-Triple (e ∷ errors) = Triple-fail (λ _. Ended) Ended e (λ calls h. inl h.0)
