-- ===== src/Controller/Resources/Object.antt =====
-- reconcileDatabase changes nothing of the object in memory but its status.
use database_user_operator.Base.{◌≡◌, String, ℤ}
use database_user_operator.World.{World}
use database_user_operator.Effects.{Effect}
use database_user_operator.Effects.Keeps.{Keeps, keeps_rules}
use database_user_operator.Api.{ObjectMeta, DatabaseSpec, Database, DatabaseStatus}
use database_user_operator.Database.Connection.{ConnectionInfo}
use database_user_operator.Database.Client.{Client}
use database_user_operator.Secrets.Client.{AwsClient}
use database_user_operator.Controller.State.{State, effect, current, modify_status}
use database_user_operator.Controller.Store.{store_credentials_in_aws}
use database_user_operator.Controller.Resources.{
  Found, Decision, adopt, recover, create, create_missing, password_for, ensure_resources,
  store_with, reconcile_with, reconcile_needed, reconcile_database,
}

-- The object has these metadata and this specification.
abbrev pub Same : ObjectMeta → DatabaseSpec → State → Type 0
Same metadata spec s = (s.db.metadata ≡ metadata) × (s.db.spec ≡ spec)

module _ (metadata : ObjectMeta) (spec : DatabaseSpec) where
  abbrev Object : State → Type 0
  Object = Same metadata spec

  effect-Same : {A : Type 0} (m : Effect A) → Keeps Object (effect m)
  unfolding effect
  effect-Same m = record { after = λ s h. h }

  current-Same : Keeps Object current
  unfolding current
  current-Same = record { after = λ s h. h }

  modify_status-Same : (f : DatabaseStatus → DatabaseStatus) → Keeps Object (modify_status f)
  unfolding modify_status
  modify_status-Same f = record { after = λ s h. h }

ruleset same_rules = (keeps_rules, effect-Same, current-Same, modify_status-Same)

module _ (w : World) (metadata : ObjectMeta) (spec : DatabaseSpec) where
  abbrev Kept : State → Type 0
  Kept = Same metadata spec

  store_credentials-Same :
      (username password : String) (info : ConnectionInfo) (port : ℤ)
      → Keeps Kept (store_credentials_in_aws w username password info port)
  unfolding store_credentials_in_aws
  store_credentials-Same username password info port = search same_rules depth 10

  create_missing-Same :
      (dc : Client) (f : Found) (username : String) → Keeps Kept (create_missing w dc f username)
  unfolding create_missing
  create_missing-Same dc f username = search same_rules depth 16

  password_for-Same :
      (dc : Client) (c : AwsClient) (f : Found) (d : Decision) (username name : String)
      → Keeps Kept (password_for w dc c f d username name)
  unfolding password_for
  password_for-Same dc c f adopt username name = search same_rules depth 10
  password_for-Same dc c f recover username name = search same_rules depth 10
  password_for-Same dc c f create username name = create_missing-Same dc f username

  ensure_resources-Same :
      (dc : Client) (username : String) → Keeps Kept (ensure_resources w dc username)
  unfolding ensure_resources
  ensure_resources-Same dc username = search (same_rules, password_for-Same) depth 10

  store_with-Same :
      (dc : Client) (db : Database) (username password : String)
      → Keeps Kept (store_with w dc db username password)
  unfolding store_with
  store_with-Same dc db username password = search (same_rules, store_credentials-Same) depth 10

  reconcile_with-Same : (dc : Client) → Keeps Kept (reconcile_with w dc)
  unfolding reconcile_with
  reconcile_with-Same dc = search (same_rules, ensure_resources-Same, store_with-Same) depth 10

  reconcile_needed-Same : Keeps Kept (reconcile_needed w)
  unfolding reconcile_needed
  reconcile_needed-Same = search (same_rules, reconcile_with-Same) depth 12

  pub reconcile_database-Same : Keeps Kept (reconcile_database w)
  unfolding reconcile_database
  reconcile_database-Same = search (same_rules, reconcile_needed-Same) depth 8
