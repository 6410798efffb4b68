-- ===== src/Controller/Resources/Credentials.antt =====
-- The credentials that reconcileDatabase leaves behind, with the connection that it works with.
use database_user_operator.Base.{
  ◌≡◌, ◌≢◌, inl, inr, ◌∙◌, refl, sym, true, false, Option, some, String, ok,
}
use database_user_operator.World.{World}
use database_user_operator.Effects.{Effect, finally, ◌>>=◌}
use database_user_operator.Effects.Steps.{if-at}
use database_user_operator.Effects.Keeps.{Keeps}
use database_user_operator.Effects.Avoids.{Ignores, kube, sql, session}
use database_user_operator.Effects.Avoids
use database_user_operator.Effects.Triples.{
  Triple, Anything, Triple-then, Triple-deferred, Triple-ok,
}
use database_user_operator.Database.Connection.{ConnectionInfo}
use database_user_operator.Database.Client
use database_user_operator.Database.Client.{Client}
use database_user_operator.Database.Client.Calls.{new_client-Keeps, close-Keeps}
use database_user_operator.Database.Client.Given.{given_password, Agrees-Ignores}
use database_user_operator.Secrets.Client.Stored.{stored-Ignores}
use database_user_operator.Controller.State.{State, effect, current}
use database_user_operator.Controller.Calls.{get_connection_string-Keeps}
use database_user_operator.Controller.Spec.{
  needs_reconciliation, get_region, get_username_or_default,
}
use database_user_operator.Controller.Store.{moves}
use database_user_operator.Controller.Store.Moved.{Placed, Resolves}
use database_user_operator.Controller.Resources.{
  reconcile_with, reconcile_needed, reconcile_database,
}
use database_user_operator.Controller.Resources.Agreement.{Agreement, reconcile_with-Triple}
use database_user_operator.Controller.Resources.Ready.{Ready, Unchanged, Unchanged-Ignores}

-- For the connection that was worked with.
abbrev pub SomeAgreement : World → (username : String) → (before : Option String) → State → Type 0
SomeAgreement w username before s = (info : ConnectionInfo) × Agreement w username before info s

module _ (w : World) (u : String) (before : Option String) where
  -- The client is closed, which leaves what was reached.
  close-Agreement :
      (dc : Client) (info : ConnectionInfo) (s : State)
      → Agreement w u before info s
      → Agreement w u before info (effect (Client.close w dc) s).1
  unfolding effect
  close-Agreement dc info s (password, (json, made, held), agrees) =
      let region = s.db.status.secret_region in
      let name = s.db.status.actual_secret_name in
      let keeps = stored-Ignores w region name (λ o. o ≡ some json) in
      (
        password,
        (json, made, (close-Keeps w _ (keeps sql refl) (keeps session refl) dc).after s.calls held),
        (close-Keeps w _ (Agrees-Ignores w u before password sql refl)
              (Agrees-Ignores w u before password session refl) dc).after
            s.calls agrees,
      )

  -- The object is that of the user, and nothing was done yet.
  abbrev Start : State → Type 0
  Start s = (get_username_or_default s.db ≡ u) × Ready w (Unchanged w u before) s

  effect-Start :
      {A : Type 0} (m : Effect A) → Keeps (Unchanged w u before) m → Keeps Start (effect m)
  unfolding effect
  effect-Start m k = record { after = λ s h. (h.0, (h.1.0, k.after s.calls h.1.1)) }

  current-Start : Keeps Start current
  unfolding current
  current-Start = record { after = λ s h. h }

  used-Triple :
      (dc : Client)
      → Triple Start
          (finally (reconcile_with w dc) (effect (Client.close w dc)))
          (λ _. SomeAgreement w u before)
          Anything
  used-Triple dc =
      Triple-deferred (λ _. Agreement w u before (Client.get_connection_info dc))
        (λ _. SomeAgreement w u before) (reconcile_with w dc) (effect (Client.close w dc))
        (reconcile_with-Triple w dc u before)
        (λ _ s h. (Client.get_connection_info dc, close-Agreement dc _ s h))

  needed-Triple : Triple Start (reconcile_needed w) (λ _. SomeAgreement w u before) Anything
  unfolding reconcile_needed
  needed-Triple =
      let result = λ (_ : Unit {0}). SomeAgreement w u before in
      let other = Unchanged-Ignores w u before in
      Triple-then Start result _ _ current-Start (λ db.
        Triple-then Start result _ _
          (effect-Start _
            (get_connection_string-Keeps w _ (other Avoids.secret refl) (other kube refl) db))
          (λ connection_string.
            Triple-then Start result _ _
              (effect-Start _ (
                new_client-Keeps w _ (other sql refl) (other session refl) db.spec.engine
                  connection_string))
              used-Triple))

module _ (w : World) where
  reconcile_database-Agreement_Placed :
      (s s' : State)
      → needs_reconciliation s.db ≡ true
      → Placed w s.db
      → reconcile_database w s ≡ (ok tt, s')
      → SomeAgreement w
          (get_username_or_default s.db)
          (given_password w (get_username_or_default s.db) s.calls)
          s'
  unfolding reconcile_database current ◌>>=◌
  reconcile_database-Agreement_Placed s s' needs placed e =
      let u = get_username_or_default s.db in
      let before = given_password w u s.calls in
      Triple-ok (λ _. SomeAgreement w u before) (reconcile_needed w) (needed-Triple w u before) tt s
        s' (refl, (placed, refl)) (sym (if-at (needs_reconciliation s.db) true _ _ s needs) ∙ e)

-- An object that needs work, and whose status names no region or the very one that the spec names,
-- before the AWS SDK resolves it: when reconcileDatabase returns without an error, there is a password such that the secret that the status names, in the region
-- that it names, holds the JSON of the credentials with this password for the connection that was
-- worked with, and the server has for the user either this password or the one that it had before.
pub reconcile_database-Agreement :
    (w : World) (s s' : State)
    → needs_reconciliation s.db ≡ true
    → moves s.db ≡ false
    → reconcile_database w s ≡ (ok tt, s')
    → SomeAgreement w
        (get_username_or_default s.db)
        (given_password w (get_username_or_default s.db) s.calls)
        s'
reconcile_database-Agreement w s s' needs stays e =
    reconcile_database-Agreement_Placed w s s' needs (inl stays) e

-- The same where the spec names the region of the secret, whether the secret was in another region
-- before or not, if the AWS SDK resolves a region that is given to this region: the deletion of the
-- secret in the old region leaves the one that was written.
pub reconcile_database-Agreement_moved :
    (w : World) (s s' : State)
    → Resolves w
    → get_region s.db ≢ ""
    → needs_reconciliation s.db ≡ true
    → reconcile_database w s ≡ (ok tt, s')
    → SomeAgreement w
        (get_username_or_default s.db)
        (given_password w (get_username_or_default s.db) s.calls)
        s'
reconcile_database-Agreement_moved w s s' resolves given needs e =
    reconcile_database-Agreement_Placed w s s' needs (inr (resolves, given)) e
