-- ===== src/Controller/Resources/Password.antt =====
-- The password of a user that exists already, in reconcileDatabase.
use database_user_operator.Base.{
  ◌≡◌, refl, Bool, true, false, if◌then◌else◌, String, none, some, ok,
}
use database_user_operator.World.{World}
use database_user_operator.Effects.{pure}
use database_user_operator.Effects.Keeps.{Keeps, Keeps-pure}
use database_user_operator.Effects.Avoids.{
  avoids_rules, Ignores-Avoids, Avoids, Keeps-perform, Kind, by_kind, kube, sql, object,
}
use database_user_operator.Effects.Avoids
use database_user_operator.Database.Client
use database_user_operator.Database.Client.{Client}
use database_user_operator.Database.Client.Calls.{create_database-Keeps, generate_password-Keeps}
use database_user_operator.Database.Client.Given.{
  given_password, given-Ignores, NotGiven, Has, create_user-Has,
}
use database_user_operator.Effects.Triples.{
  Triple, Triple-bind, Triple-pure, Triple-then, Triple-ok, Anything,
}
use database_user_operator.Secrets.Client.{AwsClient}
use database_user_operator.Controller.State.{State}
use database_user_operator.Controller.Calls.{
  Clean, Trace, step_rules, effect-Trace, effect-Triple, current-Trace, modify_status-Trace,
}
use database_user_operator.Controller.Resources.Calls.{adopt_existing-Keeps, recover_password-Keeps}
use database_user_operator.Controller.Resources.{
  Found, Decision, adopt, recover, create, create_missing, password_for,
}

-- Statements that give a user a password.
abbrev pub sets : Kind → Bool
sets Avoids.password = true
sets _ = false

module _ (w : World) (dc : Client) (f : Found) (username : String) (exists : f.user ≡ true) where
  user_step-Keeps :
      (b : Bool) (password : String)
      → b ≡ true
      → Keeps {A = Unit}
          (Avoids (by_kind sets))
          (if b then pure tt else Client.create_user w dc username password)
  user_step-Keeps true password h = Keeps-pure tt
  user_step-Keeps false password h = cc

  create_missing-Trace : Keeps (Clean sets) (create_missing w dc f username)
  unfolding create_missing
  create_missing-Trace =
      search
        (
          step_rules, Ignores-Avoids, generate_password-Keeps, user_step-Keeps,
          create_database-Keeps,
        )
        depth 16

  password_for-Trace :
      (c : AwsClient) (d : Decision) (name : String)
      → Keeps (Clean sets) (password_for w dc c f d username name)
  unfolding password_for
  password_for-Trace c adopt name =
      search (step_rules, Ignores-Avoids, adopt_existing-Keeps) depth 10
  password_for-Trace c recover name =
      search (step_rules, Ignores-Avoids, recover_password-Keeps) depth 10
  password_for-Trace c create name = create_missing-Trace

  -- Where the user was found to exist, no statement gives a user a password, whichever branch is
  -- taken, also where a new password is generated because only the database is missing.
  pub password_for_existing :
      (c : AwsClient) (d : Decision) (name : String) (s : State)
      → Clean sets s
      → Clean sets (password_for w dc c f d username name s).1
  password_for_existing c d name s = (password_for-Trace c d name).after s

module _ (w : World) (dc : Client) (u : String) where
  user_step-Has :
      (b : Bool) (p : String)
      → b ≡ false
      → Triple {A = Unit {0}}
          (NotGiven w u)
          (if b then pure tt else Client.create_user w dc u p)
          (λ _. Has w u p)
          Anything
  user_step-Has true p h = cc
  user_step-Has false p h = create_user-Has w u p dc

  database_step-Has :
      (p name : String) (b : Bool)
      → Keeps {A = Unit {0}} (Has w u p) (if b then pure tt else Client.create_database w dc name u)
  database_step-Has p name true = Keeps-pure tt
  database_step-Has p name false =
      create_database-Keeps w (Has w u p) (given-Ignores w u (λ o. o ≡ some p) sql refl) dc name u

  create_missing-Triple :
      (f : Found)
      → f.user ≡ false
      → Triple (Trace (NotGiven w u)) (create_missing w dc f u) (λ p. Trace (Has w u p)) Anything
  unfolding create_missing
  create_missing-Triple f missing =
      Triple-then (Trace (NotGiven w u)) (λ p. Trace (Has w u p)) _ _ (current-Trace (NotGiven w u))
        (λ db.
          Triple-then (Trace (NotGiven w u)) (λ p. Trace (Has w u p)) _ _
            (effect-Trace (NotGiven w u) _ (
              generate_password-Keeps w (NotGiven w u) (given-Ignores w u (λ o. o ≡ none) kube refl)
                32))
            (λ p.
              Triple-bind (λ _. Trace (Has w u p)) (λ p. Trace (Has w u p)) Anything _ _
                (effect-Triple (NotGiven w u) (λ _. Has w u p) Anything _
                  (user_step-Has f.user p missing))
                (λ _.
                  Triple-then (Trace (Has w u p)) (λ p. Trace (Has w u p)) _ _
                    (modify_status-Trace (Has w u p) _)
                    (λ _.
                      Triple-then (Trace (Has w u p)) (λ p. Trace (Has w u p)) _ _
                        (effect-Trace (Has w u p) _
                          (database_step-Has p db.spec.database_name f.database))
                        (λ _.
                          Triple-then (Trace (Has w u p)) (λ p. Trace (Has w u p)) _ _
                            (modify_status-Trace (Has w u p) _)
                            (λ _. Triple-pure (λ p. Trace (Has w u p)) Anything p (λ s h. h)))))))

-- Where the user was not found and no statement has given it a password, a password that is
-- returned is the one that the server accepted for the user, on PostgreSQL and on MySQL.
pub create_missing-given_password :
    (w : World) (dc : Client) (f : Found) (username password : String) (s s' : State)
    → f.user ≡ false
    → given_password w username s.calls ≡ none
    → create_missing w dc f username s ≡ (ok password, s')
    → given_password w username s'.calls ≡ some password
create_missing-given_password w dc f username password s s' missing fresh e =
    Triple-ok (λ p. Trace (Has w username p)) (create_missing w dc f username)
      (create_missing-Triple w dc username f missing) password s s' fresh e
