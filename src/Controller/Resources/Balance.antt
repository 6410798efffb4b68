-- ===== src/Controller/Resources/Balance.antt =====
-- The handles that reconcileDatabase of internal/controller/database_controller.go opens.
use database_user_operator.Base.{refl, List, ◌∷◌}
use database_user_operator.World.{World, Handle}
use database_user_operator.Effects.{finally}
use database_user_operator.Effects.Keeps.{Keeps, Keeps-bind}
use database_user_operator.Effects.Avoids.{kube, sql, Ignores, Kind}
use database_user_operator.Effects.Avoids
use database_user_operator.Effects.Triples.{Triple, Triple-Keeps, Triple-finally, Keeps-before}
use database_user_operator.Database.Client
use database_user_operator.Database.Client.{Client}
use database_user_operator.Database.Client.Handles.{
  Open, OpenClient, Open-Ignores, handle_of, new_client-Open, close_client-Open,
}
use database_user_operator.Database.Client.Balance.{grant_all_privileges-Open}
use database_user_operator.Controller.State.{effect}
use database_user_operator.Controller.Calls.{
  Trace, step_rules, effect-Triple, effect-Trace, get_connection_string-Keeps,
}
use database_user_operator.Controller.Resources.{
  reconcile_with, reconcile_needed, reconcile_database,
}
use database_user_operator.Controller.Resources.Calls.{reconcile_with-Trace}

module _ (w : World) (handles : List Handle) where
  with-Open : (dc : Client) (hs : List Handle) → Keeps (Trace (Open w hs)) (reconcile_with w dc)
  with-Open dc hs =
      let other = Open-Ignores w hs in
      reconcile_with-Trace w (Open w hs) (other Avoids.secret refl) (other sql refl)
        (other kube refl) (other Avoids.password refl) (other Avoids.write refl)
        (other Avoids.delete refl) (grant_all_privileges-Open w hs) dc

  -- The work with a client, and the client closed behind it.
  used-Open :
      (dc : Client)
      → Triple
          (Trace (OpenClient w handles dc))
          (finally (reconcile_with w dc) (effect (Client.close w dc)))
          (λ _. Trace (Open w handles))
          (Trace (Open w handles))
  unfolding effect
  used-Open dc =
      Triple-finally (Trace (OpenClient w handles dc)) (Trace (Open w handles)) _ _
        (Triple-Keeps (Trace (OpenClient w handles dc)) _ (with-Open dc (handle_of dc ∷ handles)))
        (λ s. close_client-Open w handles dc s.calls)

  reconcile_needed-Open : Keeps (Trace (Open w handles)) (reconcile_needed w)
  unfolding reconcile_needed
  reconcile_needed-Open = Keeps-bind _ _ (search step_rules) (λ db.
      Keeps-bind _ _
        (effect-Trace (Open w handles) _ (
          get_connection_string-Keeps w _ (Open-Ignores w handles Avoids.secret refl)
            (Open-Ignores w handles kube refl) db))
        (λ connection_string.
          Keeps-before (λ dc. Trace (OpenClient w handles dc)) _ _
            (effect-Triple _ _ _ _ (new_client-Open w handles db.spec.engine connection_string))
            used-Open))

  pub reconcile_database-Open : Keeps (Trace (Open w handles)) (reconcile_database w)
  unfolding reconcile_database
  reconcile_database-Open = search (step_rules, reconcile_needed-Open) depth 8
