-- ===== src/Controller/Resources/Adopt.antt =====
-- The password that reconcileDatabase reads from a secret that exists, where the user and the
-- database exist too.
use mathlib.Core.Path.{subst}
use database_user_operator.Base.{◌≡◌, ◌≢◌, String, Result, ok, err, eq-false_of_ne}
use database_user_operator.World.{World, DatabaseSecret, get_secret_value}
use database_user_operator.Effects.{
  Calls, Effect, proceed, add_prefix, lift, wrap, pure, ◌>>=◌, ◌>>◌,
}
use database_user_operator.Api.{Database}
use database_user_operator.Secrets.Client.{AwsClient, get_secret}
use database_user_operator.Secrets.Client.Stored.{stored_value, Stored}
use database_user_operator.Secrets.Client.ReadBack.{ReadsBack, credentials, stored-get_secret}
use database_user_operator.Controller.Tags.{desired_tags, sync_tags}
use database_user_operator.Controller.Resources.{adopt_existing, password_in}

-- A step that returns a value of its own, or an error.
then_pure-ok :
    {A : Type 0} (r : Result (Unit {0})) (calls calls' : Calls) (a b : A)
    → proceed r (λ _. pure a) calls ≡ (ok b, calls')
    → b ≡ a
unfolding pure
then_pure-ok (ok _) calls calls' a b e = cc
then_pure-ok (err e) calls calls' a b h = cc

module _ (w : World) (c : AwsClient) (name : String) (db : Database) where
  abbrev empty_password : String
  empty_password = "could not extract password from existing secret"

  -- The rest of the function, behind a secret that was read.
  abbrev rest : DatabaseSecret → Effect String
  rest secret = do
    password ← lift (password_in secret empty_password)
    sync_tags w c name (desired_tags db)
    pure password

  rest-db_password :
      (secret : DatabaseSecret) (password : String) (calls calls' : Calls)
      → secret.db_password ≢ ""
      → rest secret calls ≡ (ok password, calls')
      → password ≡ secret.db_password
  unfolding ◌>>=◌ lift password_in
  rest-db_password secret password calls calls' given h =
      then_pure-ok (sync_tags w c name (desired_tags db) calls).0 _ calls' secret.db_password
        password (rw (eq-false_of_ne secret.db_password "" given) at h)

  -- The secret holds credentials in the default format with a password that is not empty, AWS returns
  -- for it the value that was last written, and json.Unmarshal reads its fields by their keys. Then the password that is adopted, if
  -- one is returned, is that of the credentials.
  pub adopt_existing-db_password :
      (value : DatabaseSecret) (password : String) (calls calls' : Calls)
      → ReadsBack w c name value
      → value.db_password ≢ ""
      → Stored w c.region name value "" calls
      → w.reply calls (get_secret_value c.region name) ≡ ok (stored_value w c.region name calls)
      → adopt_existing w c name db calls ≡ (ok password, calls')
      → password ≡ value.db_password
  unfolding adopt_existing wrap ◌>>=◌
  adopt_existing-db_password value password calls calls' back given stored reply h =
      rest-db_password (credentials w c name value) password (get_secret w c name calls).1 calls'
        given
        (subst
          (λ r.
            proceed (add_prefix "failed to retrieve existing secret" r) rest
              (get_secret w c name calls).1
            ≡ (ok password, calls'))
          (stored-get_secret w c name value calls back given stored reply) h)
