-- ===== src/Controller/Resources/Agreement.antt =====
-- The credentials that reconcileDatabase stores, and those of the server.
use database_user_operator.Base.{
  ◌≡◌, refl, Bool, true, false, inl, Option, String, ℤ, atoi, if◌then◌else◌,
}
use database_user_operator.World.{World}
use database_user_operator.Effects.{Calls, Effect, pure, ◌>>=◌, ◌>>◌}
use database_user_operator.Effects.Keeps.{Keeps, Keeps-pure}
use database_user_operator.Effects.Avoids.{Ignores, Kind, sql, kube, session}
use database_user_operator.Effects.Avoids
use database_user_operator.Effects.Triples.{
  Triple, Triple-bind, Triple-weaken, Triple-pure, Triple-reached, Anything, Triple-then,
  Triple-both,
}
use database_user_operator.Api.{Database, DatabaseStatus}
use database_user_operator.Database.Connection.{ConnectionInfo}
use database_user_operator.Database.Client
use database_user_operator.Database.Client.{Client}
use database_user_operator.Database.Client.Calls.{
  generate_password-Keeps, create_database-Keeps, grant_all_privileges-Keeps,
}
use database_user_operator.Database.Client.Given.{gives, Agrees, Agrees-Ignores, create_user-Agrees}
use database_user_operator.Secrets.Client.{AwsClient}
use database_user_operator.Controller.State.{State, effect, current, modify_status, with_status}
use database_user_operator.Controller.Calls.{Trace}
use database_user_operator.Controller.Spec.{get_region, get_username_or_default}
use database_user_operator.Controller.Store.{region_changed, moves, store_credentials_in_aws}
use database_user_operator.Controller.Store.Moved.{Placed}
use database_user_operator.Controller.Store.Stored.{Holding, store_credentials-Triple}
use database_user_operator.Controller.Resources.{
  Found, Decision, adopt, recover, create, is_migration, migrate_password, create_missing,
  password_for, ensure_resources, store_with, reconcile_with,
}
use database_user_operator.Controller.Resources.Calls.{
  store_credentials-Trace, look_up-Keeps, migrate_password-Keeps, adopt_existing-Keeps,
  recover_password-Keeps,
}
use database_user_operator.Controller.Resources.Ready.{
  Ready, effect-Ready, current-Ready, modify-Ready, Unchanged, Unchanged-Ignores,
}

module _ (w : World) (dc : Client) (u : String) (before : Option String) where
  abbrev Had : Calls → Type 0
  Had = Unchanged w u before

  Had-Ignores : (k : Kind) → gives k ≡ false → Ignores Had k
  Had-Ignores = Unchanged-Ignores w u before

  -- The password that is to be stored agrees.
  abbrev Agreeing : String → State → Type 0
  Agreeing p = Ready w (Agrees w u before p)

  password-Ignores : (p : String) (k : Kind) → gives k ≡ false → Ignores (Agrees w u before p) k
  password-Ignores = Agrees-Ignores w u before

  -- A password that comes from elsewhere: the server keeps the one that it had.
  read-Triple :
      (m : Effect String) → Keeps Had m → Triple (Ready w Had) (effect m) Agreeing Anything
  read-Triple m k =
      Triple-weaken (λ _. Ready w Had) Anything Agreeing _
        (Triple-reached (Ready w Had) _ (effect-Ready w Had m k)) (λ p s h. (h.0, inl h.1))

  -- The status is set, and the password is the result.
  finish-Triple :
      (p : String) (f : DatabaseStatus → DatabaseStatus)
      → ((db : Database) → moves (with_status db (f db.status)) ≡ moves db)
      → Triple (Agreeing p) (do modify_status f; pure p) Agreeing Anything
  finish-Triple p f same =
      Triple-then (Agreeing p) Agreeing _ _ (modify-Ready w (Agrees w u before p) f same)
        (λ _. Triple-pure Agreeing Anything p (λ s h. h))

  user_step-Agrees :
      (p : String) (b : Bool)
      → Keeps {A = Unit {0}}
          (Agrees w u before p)
          (if b then pure tt else Client.create_user w dc u p)
  user_step-Agrees p true = Keeps-pure tt
  user_step-Agrees p false = create_user-Agrees w u before p dc

  database_step-Agrees :
      (p name : String) (b : Bool)
      → Keeps {A = Unit {0}}
          (Agrees w u before p)
          (if b then pure tt else Client.create_database w dc name u)
  database_step-Agrees p name true = Keeps-pure tt
  database_step-Agrees p name false =
      create_database-Keeps w _ (password-Ignores p sql refl) dc name u

  create_missing-Agrees :
      (f : Found) → Triple (Ready w Had) (create_missing w dc f u) Agreeing Anything
  unfolding create_missing moves region_changed get_region
  create_missing-Agrees f = Triple-then (Ready w Had) Agreeing _ _ (current-Ready w Had) (λ db.
      Triple-bind Agreeing Agreeing Anything _ _
        (read-Triple _ (generate_password-Keeps w Had (Had-Ignores kube refl) 32))
        (λ p.
          Triple-then (Agreeing p) Agreeing _ _
            (effect-Ready w (Agrees w u before p) _ (user_step-Agrees p f.user))
            (λ _.
              Triple-then (Agreeing p) Agreeing _ _
                (modify-Ready w (Agrees w u before p) _ (λ db. refl))
                (λ _.
                  Triple-then (Agreeing p) Agreeing _ _
                    (effect-Ready w (Agrees w u before p) _
                      (database_step-Agrees p db.spec.database_name f.database))
                    (λ _. finish-Triple p _ (λ db. refl))))))

  password_for-Agrees :
      (c : AwsClient) (f : Found) (d : Decision) (name : String)
      → Triple (Ready w Had) (password_for w dc c f d u name) Agreeing Anything
  unfolding password_for moves region_changed get_region
  password_for-Agrees c f adopt name =
      Triple-then (Ready w Had) Agreeing _ _ (current-Ready w Had) (λ db.
        Triple-bind Agreeing Agreeing Anything _ _
          (read-Triple _ (adopt_existing-Keeps w Had (Had-Ignores Avoids.secret refl) c name db))
          (λ p. finish-Triple p _ (λ db. refl)))
  password_for-Agrees c f recover name =
      Triple-then (Ready w Had) Agreeing _ _ (current-Ready w Had) (λ db.
        Triple-bind Agreeing Agreeing Anything _ _
          (read-Triple _
            (recover_password-Keeps w Had (Had-Ignores Avoids.secret refl) f c.region db.status))
          (λ p. finish-Triple p _ (λ db. refl)))
  password_for-Agrees c f create name = create_missing-Agrees f

  ensure_resources-Agrees : Triple (Ready w Had) (ensure_resources w dc u) Agreeing Anything
  unfolding ensure_resources
  ensure_resources-Agrees = Triple-then (Ready w Had) Agreeing _ _ (current-Ready w Had) (λ db.
      Triple-then (Ready w Had) Agreeing _ _
        (effect-Ready w Had _ (
          look_up-Keeps w Had (Had-Ignores Avoids.secret refl) (Had-Ignores sql refl)
            (Had-Ignores kube refl) dc db u))
        (λ found. password_for-Agrees found.1 found.0 _ _))

  abbrev Readable : String → (info : ConnectionInfo) → State → Type 0
  Readable p info s = Holding w u p info (atoi info.port) s × Agrees w u before p s.calls

  -- What the calls of the storing leave of what is known of the server.
  credentials-Trace :
      (p : String) (info : ConnectionInfo) (port : ℤ)
      → Keeps (Trace (Agrees w u before p)) (store_credentials_in_aws w u p info port)
  credentials-Trace p info port =
      store_credentials-Trace w (Agrees w u before p) (password-Ignores p Avoids.secret refl)
        (password-Ignores p Avoids.write refl) (password-Ignores p Avoids.delete refl) u p info port

  store_credentials-Readable :
      (p : String) (info : ConnectionInfo)
      → Triple
          (Agreeing p)
          (store_credentials_in_aws w u p info (atoi info.port))
          (λ _. Readable p info)
          Anything
  store_credentials-Readable p info =
      Triple-both (λ _. Holding w u p info (atoi info.port)) (λ s. Placed w s.db)
        (Trace (Agrees w u before p)) _ (store_credentials-Triple w u p info (atoi info.port))
        (credentials-Trace p info (atoi info.port))

  store_with-Readable :
      (db : Database) (p : String)
      → Triple
          (Agreeing p)
          (store_with w dc db u p)
          (λ _. Readable p (Client.get_connection_info dc))
          Anything
  unfolding store_with moves region_changed get_region
  store_with-Readable db p =
      Triple-then (Agreeing p) (λ _. Readable p (Client.get_connection_info dc)) _ _
        (modify-Ready w (Agrees w u before p) _ (λ db. refl))
        (λ _.
          Triple-then (Agreeing p) (λ _. Readable p (Client.get_connection_info dc)) _ _
            (effect-Ready w (Agrees w u before p) _ (
              grant_all_privileges-Keeps w (Agrees w u before p) (password-Ignores p sql refl)
                (password-Ignores p session refl) dc db.spec.database_name u))
            (λ _. store_credentials-Readable p (Client.get_connection_info dc)))

-- The secret that the status names holds a password, and the server has this password for the user
-- or the one that it had before, which may be another.
abbrev pub Agreement :
    World → (username : String) → (before : Option String) → ConnectionInfo → State → Type 0
Agreement w username before info s =
    (password : String) × Holding w username password info (atoi info.port) s
    × Agrees w username before password s.calls

module _ (w : World) (dc : Client) (u : String) (before : Option String) where
  abbrev Agreed : State → Type 0
  Agreed = Agreement w u before (Client.get_connection_info dc)

  -- The two ways to a password.
  password-Agrees :
      (db : Database) (b : Bool)
      → Triple
          (Ready w (Had w dc u before))
          (if b then effect (migrate_password w db) else ensure_resources w dc u)
          (Agreeing w dc u before)
          Anything
  password-Agrees db true =
      read-Triple w dc u before _
        (migrate_password-Keeps w _ (Had-Ignores w dc u before Avoids.secret refl) db)
  password-Agrees db false = ensure_resources-Agrees w dc u before

  work-Triple :
      (db : Database)
      → Triple
          (Ready w (Had w dc u before))
          (do
            password ←
                if is_migration db.status
                then effect (migrate_password w db)
                else ensure_resources w dc u
            store_with w dc db u password)
          (λ _. Agreed)
          Anything
  work-Triple db =
      Triple-bind (Agreeing w dc u before) (λ _. Agreed) Anything _ _
        (password-Agrees db (is_migration db.status))
        (λ p.
          Triple-weaken (λ _. Readable w dc u before p (Client.get_connection_info dc)) Anything
            (λ _. Agreed) _ (store_with-Readable w dc u before db p) (λ _ s h. (p, h.0, h.1)))

  -- Where the object that is worked on is known.
  pub reconcile_with-Triple :
      Triple
        (λ s. (get_username_or_default s.db ≡ u) × Ready w (Had w dc u before) s)
        (reconcile_with w dc)
        (λ _. Agreed)
        Anything
  unfolding reconcile_with current ◌>>=◌
  reconcile_with-Triple = record { run = λ s h. rw h.0 ((work-Triple s.db).run s h.1) }
