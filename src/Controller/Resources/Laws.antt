-- ===== src/Controller/Resources/Laws.antt =====
-- What a reconciliation leaves in the status when it succeeds.
use database_user_operator.Base.{
  ◌≡◌, refl, Bool, true, false, String, if◌then◌else◌, eq_iff, arith, ℤ,
}
use database_user_operator.World.{World}
use database_user_operator.Effects.{Calls, Effect, ◌>>=◌, pure, finally}
use database_user_operator.Effects.Ensures.{Ensures, bind-Ensures, map-Ensures, always-Ensures}
use database_user_operator.Api.{Database}
use database_user_operator.Database.Connection.{ConnectionInfo}
use database_user_operator.Database.Client
use database_user_operator.Database.Client.{Client}
use database_user_operator.Secrets.Client.{AwsClient}
use database_user_operator.Controller.State.{State, effect, current, modify_status}
use database_user_operator.Controller.Spec.{
  current_secret_format_version, needs_reconciliation, get_username_or_default,
}
use database_user_operator.Controller.Source.{get_connection_string}
use database_user_operator.Controller.Store.{stored_status, store_credentials_in_aws}
use database_user_operator.Controller.Resources.{
  Found, Decision, adopt, recover, create, is_migration, create_missing, password_for,
  ensure_resources, look_up, migrate_password, store_with, reconcile_with, reconcile_needed,
  reconcile_database,
}

-- The user and the database are known to exist.
abbrev pub Created : State → Type 0
Created s = (s.db.status.user_created ≡ true) × (s.db.status.database_created ≡ true)

-- All three resources are, and the secret has the current format.
abbrev pub Stored : State → Type 0
Stored s =
    (s.db.status.user_created ≡ true)
    × (s.db.status.database_created ≡ true)
    × (s.db.status.secret_created ≡ true)
    × (s.db.status.secret_format_version ≡ current_secret_format_version)

-- Calls leave what is known of the object.
effect-Ensures :
    {A : Type 0}
    → (Q : State → Type 0) (m : Effect A) (s : State)
    → ((calls : Calls) → Q (record s { calls = calls }))
    → Ensures Q (effect m s)
unfolding effect
effect-Ensures Q m s h = always-Ensures Q (m s.calls).0 (record s { calls = (m s.calls).1 }) (h _)

module _ (w : World) where
  store_credentials-Stored :
      (username password : String) (info : ConnectionInfo) (port : ℤ) (s : State)
      → Created s
      → Ensures Stored (store_credentials_in_aws w username password info port s)
  unfolding store_credentials_in_aws stored_status effect current modify_status ◌>>=◌
  store_credentials-Stored username password info port s h = ground arith

  create_missing-Created :
      (dc : Client) (f : Found) (username : String) (s : State)
      → Ensures Created (create_missing w dc f username s)
  unfolding create_missing effect current modify_status ◌>>=◌
  create_missing-Created dc f username s = ground arith

  password_for-Created :
      (dc : Client) (c : AwsClient) (f : Found) (d : Decision) (username name : String) (s : State)
      → Ensures Created (password_for w dc c f d username name s)
  unfolding password_for effect current modify_status ◌>>=◌
  password_for-Created dc c f adopt username name s = ground arith
  password_for-Created dc c f recover username name s = ground arith
  password_for-Created dc c f create username name s = create_missing-Created dc f username s

  ensure_resources-Created :
      (dc : Client) (username : String) (s : State)
      → Ensures Created (ensure_resources w dc username s)
  unfolding ensure_resources current ◌>>=◌
  ensure_resources-Created dc username s =
      bind-Ensures (λ _. Unit {0}) Created (effect (look_up w dc s.db username)) _ s
        (effect-Ensures (λ _. Unit) _ s (λ _. tt))
        (λ found s' _. password_for-Created dc found.1 found.0 _ username _ s')

  migrate-Created :
      (s : State)
      → is_migration s.db.status ≡ true
      → Ensures Created (effect (migrate_password w s.db) s)
  unfolding is_migration
  migrate-Created s h = effect-Ensures Created _ s (λ calls. ground arith)

  -- Either way the password was found, the user and the database exist.
  password-Created :
      (dc : Client) (username : String) (s : State) (b : Bool)
      → is_migration s.db.status ≡ b
      → Ensures Created
          ((if b then effect (migrate_password w s.db) else ensure_resources w dc username) s)
  password-Created dc username s true h = migrate-Created s h
  password-Created dc username s false h = ensure_resources-Created dc username s

  store_with-Stored :
      (dc : Client) (db : Database) (username password : String) (s : State)
      → Created s
      → Ensures Stored (store_with w dc db username password s)
  unfolding store_with modify_status ◌>>=◌
  store_with-Stored dc db username password s h =
      bind-Ensures Created Stored
        (effect (Client.grant_all_privileges w dc db.spec.database_name username)) _ _
        (effect-Ensures Created _ _ (λ _. h))
        (λ granted s' h'. store_credentials-Stored username password _ _ s' h')

  reconcile_with-Stored : (dc : Client) (s : State) → Ensures Stored (reconcile_with w dc s)
  unfolding reconcile_with current ◌>>=◌
  reconcile_with-Stored dc s =
      bind-Ensures Created Stored
        (if is_migration s.db.status
          then effect (migrate_password w s.db)
          else ensure_resources w dc (get_username_or_default s.db))
        _ s (password-Created dc (get_username_or_default s.db) s _ refl)
        (λ password s' h. store_with-Stored dc s.db (get_username_or_default s.db) password s' h)

  -- The client is closed behind the work, which leaves the object alone.
  close-Stored :
      (dc : Client) (s : State)
      → Ensures Stored (finally (reconcile_with w dc) (effect (Client.close w dc)) s)
  unfolding finally effect
  close-Stored dc s =
      map-Ensures Stored Stored (reconcile_with w dc s).0 (reconcile_with w dc s).1 _ (λ h. h)
        (reconcile_with-Stored dc s)

  reconcile_needed-Stored : (s : State) → Ensures Stored (reconcile_needed w s)
  unfolding reconcile_needed current ◌>>=◌
  reconcile_needed-Stored s =
      bind-Ensures (λ _. Unit {0}) Stored (effect (get_connection_string w s.db)) _ s
        (effect-Ensures (λ _. Unit) _ s (λ _. tt))
        (λ connection_string s' _.
          bind-Ensures (λ _. Unit {0}) Stored
            (effect (Client.new_client w s.db.spec.engine connection_string)) _ s'
            (effect-Ensures (λ _. Unit) _ s' (λ _. tt)) (λ dc s'' _. close-Stored dc s''))

  not_needed-Stored : (s : State) → needs_reconciliation s.db ≡ false → Stored s
  unfolding needs_reconciliation
  not_needed-Stored s h =
      ground (arith, eq_iff s.db.status.secret_format_version current_secret_format_version)

  if_needed-Stored :
      (b : Bool) (s : State)
      → needs_reconciliation s.db ≡ b
      → Ensures Stored ((if b then reconcile_needed w else pure tt) s)
  unfolding pure
  if_needed-Stored true s h = reconcile_needed-Stored s
  if_needed-Stored false s h = not_needed-Stored s h

  -- When reconcileDatabase returns without an error, whatever its branch and whatever the outside
  -- answered, the status says that the user, the database and the secret exist, and that the secret
  -- has the current format.
  pub reconcile_database-Stored : (s : State) → Ensures Stored (reconcile_database w s)
  unfolding reconcile_database current ◌>>=◌
  reconcile_database-Stored s = if_needed-Stored (needs_reconciliation s.db) s refl
