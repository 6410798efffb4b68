-- ===== src/Controller/Store/Stored.antt =====
-- The secret that storeCredentialsInAWS of internal/controller/database_controller.go leaves behind.
use database_user_operator.Base.{
  ◌≡◌, ◌∙◌, inl, inr, refl, Bool, true, false, Result, ok, err, String, ℤ,
}
use database_user_operator.World.{World, DatabaseSecret}
use database_user_operator.Effects.{proceed, Calls, ◌>>=◌}
use database_user_operator.Effects.Keeps.{Keeps, Keeps-attempt, Keeps-pure}
use database_user_operator.Effects.Avoids.{Ignores}
use database_user_operator.Effects.Avoids
use database_user_operator.Effects.Triples.{
  Post, Triple, Triple-if, Triple-bind, Triple-pure, Triple-fail, Triple-attempt, Anything,
  Triple-skip, Triple-then, Triple-fact, Triple-adapt, Triple-weaken, Triple-Keeps, Triple-wrap,
}
use database_user_operator.Api.{Database}
use database_user_operator.Database.Connection.{ConnectionInfo}
use database_user_operator.Secrets.Client.{AwsClient, new_aws_client}
use database_user_operator.Controller.Store.Moved.{
  Placed, Resolves, new_aws_client-resolved, delete_in_old_region-elsewhere, moves-old,
}
use database_user_operator.Secrets.Client.Calls.{get_secret_arn-Keeps}
use database_user_operator.Secrets.Client.Stored.{Stored, Holds, stored-Ignores}
use database_user_operator.Secrets.Client.Writes.{create_secret-Triple, update_secret-Triple}
use database_user_operator.Controller.State.{State, effect, current, modify_status}
use database_user_operator.Controller.Calls.{sync_tags-Keeps}
use database_user_operator.Controller.Store.{
  database_url, create_new, after_update, write_secret, delete_in_old_region, moves, write_and_tag,
  store_secret, secret_value, store_credentials_in_aws, stored_status,
}
use database_user_operator.Controller.Spec.{get_region, get_secret_name_or_default}

module _ (w : World) (db : Database) (name : String) (value : DatabaseSecret) where
  -- The value is in the region of a client.
  abbrev Behind : (region : String) → Calls → Type 0
  Behind region = Stored w region name value db.spec.secret_template

  ignored : (region : String) → Ignores (Behind region) Avoids.secret
  ignored region =
      stored-Ignores w region name (Holds w region name value db.spec.secret_template) Avoids.secret
        refl

  create_new-Triple :
      (c : AwsClient)
      → Triple Anything (create_new w c db name value) (λ _. Behind c.region) Anything
  unfolding create_new
  create_new-Triple c = create_secret-Triple w c name value db.spec.secret_template _ _

  after_update-Post :
      (c : AwsClient) (r : Result String)
      → Triple
          (λ calls. Post (λ _. Behind c.region) Anything (r, calls))
          (after_update w c db name value r)
          (λ _. Behind c.region)
          Anything
  unfolding after_update
  after_update-Post c (ok version) =
      Triple-then (Behind c.region) (λ _. Behind c.region) _ _
        (Keeps-attempt _ (get_secret_arn-Keeps w _ (ignored c.region) c name))
        (λ arn. Triple-pure (λ _. Behind c.region) Anything _ (λ calls h. h))
  after_update-Post c (err e) =
      Triple-if (λ _. Behind c.region) Anything _ _ _ (create_new-Triple c)
        (Triple-fail (λ _. Behind c.region) Anything _ (λ _ _. tt))

  write_secret-Triple :
      (c : AwsClient) (exists : Bool)
      → Triple Anything (write_secret w c db name value exists) (λ _. Behind c.region) Anything
  unfolding write_secret
  write_secret-Triple c true =
      Triple-bind (λ r calls. Post (λ _. Behind c.region) Anything (r, calls))
        (λ _. Behind c.region) Anything _ _
        (Triple-attempt (λ _. Behind c.region) Anything _
          (update_secret-Triple w c name value db.spec.secret_template))
        (after_update-Post c)
  write_secret-Triple c false = create_new-Triple c

  -- The result names the region.
  abbrev There : String × String × String → Calls → Type 0
  There stored = Behind stored.2

  stays-Keeps :
      (P : Calls → Type 0) (changed : Bool) (arn region : String)
      → changed ≡ false
      → Keeps P (delete_in_old_region w changed arn region name)
  unfolding delete_in_old_region
  stays-Keeps P true arn region e = cc
  stays-Keeps P false arn region e = Keeps-pure tt

  -- What is known of the region of the client, and what follows for the deletion in the old region.
  module _ (Known : String → Type 0)
      (client : Triple Anything
        (new_aws_client w (get_region db))
        (λ c s. Known c.region × Anything s)
        Anything)
      (kept : (arn region : String)
        → Known region
        → Keeps
            (Behind region)
            (delete_in_old_region w (moves db) arn db.status.secret_region name)) where
    abbrev Written : String × String × String → Calls → Type 0
    Written stored calls = Known stored.2 × There stored calls

    write_and_tag-Triple : Triple Anything (write_and_tag w db name value) Written Anything
    unfolding write_and_tag
    write_and_tag-Triple = Triple-skip Written _ _ (λ _.
        Triple-bind (λ c s. Known c.region × Anything s) Written Anything _ _
          (Triple-wrap _ Anything _ _ client)
          (λ c. Triple-fact Written Anything (Known c.region) _ (λ known.
            Triple-skip Written _ _ (λ exists. Triple-skip Written _ _ (λ _.
              Triple-bind (λ _. Behind c.region) Written Anything _ _ (write_secret-Triple c exists)
                (λ written.
                  Triple-then (Behind c.region) Written _ _
                    (sync_tags-Keeps w _ (ignored c.region) c name _)
                    (λ _. Triple-pure Written Anything _ (λ calls h. (known, h)))))))))

    store_with-Triple : Triple Anything (store_secret w db name value) There Anything
    unfolding store_secret
    store_with-Triple = Triple-bind Written There Anything _ _ write_and_tag-Triple (λ stored.
        Triple-fact There Anything (Known stored.2) _ (λ known.
          Triple-then (There stored) There _ _ (kept stored.0 stored.2 known)
            (λ _. Triple-pure There Anything _ (λ calls h. h))))

  unknown : Triple Anything (new_aws_client w (get_region db)) (λ c s. Unit × Anything s) Anything
  unknown =
      Triple-weaken (λ _. Anything) Anything (λ c s. Unit × Anything s) _
        (Triple-Keeps Anything _ (record { after = λ s h. tt })) (λ c s h. (tt, tt))

  moved-Keeps :
      (b : Bool)
      → moves db ≡ b
      → Resolves w
      → (arn region : String) → region ≡ get_region db
      → Keeps (Behind region) (delete_in_old_region w (moves db) arn db.status.secret_region name)
  moved-Keeps false e resolves arn region known = stays-Keeps _ _ _ _ e
  moved-Keeps true e resolves arn region known =
      let (given, other) = moves-old db e in
      delete_in_old_region-elsewhere w region name
        (Holds w region name value db.spec.secret_template) _ arn _ name resolves given
        (λ k. other (k ∙ known))

  pub store_secret-Triple :
      Placed w db → Triple Anything (store_secret w db name value) There Anything
  store_secret-Triple (inl stays) =
      store_with-Triple (λ _. Unit) unknown (λ arn region known. stays-Keeps _ _ _ _ stays)
  store_secret-Triple (inr (resolves, given)) =
      store_with-Triple (λ region. region ≡ get_region db)
        (Triple-adapt _ Anything _ Anything _ (λ s h. h)
          (new_aws_client-resolved w Anything (record { more = λ c calls e h. tt }) (get_region db)
            resolves given)
          (λ c s h. h) (λ s h. tt))
        (moved-Keeps (moves db) refl resolves)

-- The secret that the status names holds the credentials.
abbrev pub Holding :
    World → (username password : String) → ConnectionInfo → (port : ℤ) → State → Type 0
Holding w username password info port s =
    Stored w s.db.status.secret_region s.db.status.actual_secret_name
      (secret_value w s.db username password info port) s.db.spec.secret_template s.calls

module _ (w : World) (username password : String) (info : ConnectionInfo) (port : ℤ) where
  -- The object with the name of the secret set.
  abbrev named : Database → String → Database
  named db name = record db { status = record db.status { actual_secret_name = name } }

  stored-Post :
      (db : Database) (name : String) (r : Result (String × String × String)) (calls : Calls)
      → Post (There w db name (secret_value w db username password info port)) Anything (r, calls)
      → Post
          (λ _. Holding w username password info port)
          Anything
          (proceed r
            (λ stored. modify_status (stored_status db username info port stored))
            (record { db = named db name; calls = calls }))
  unfolding modify_status stored_status secret_value database_url
  stored-Post db name (ok stored) calls h = h
  stored-Post db name (err e) calls h = tt

  -- If the status names no region or the one of the spec, or the spec names a region, a call that
  -- returns leaves the credentials in the secret that the status names.
  pub store_credentials-Triple :
      Triple
        (λ s. Placed w s.db)
        (store_credentials_in_aws w username password info port)
        (λ _. Holding w username password info port)
        Anything
  unfolding store_credentials_in_aws current modify_status effect ◌>>=◌
  store_credentials-Triple = record {
    run = λ s placed.
        let name = get_secret_name_or_default s.db in
        let value = secret_value w s.db username password info port in
        let result = store_secret w s.db name value s.calls in
        stored-Post s.db name result.0 result.1
          ((store_secret-Triple w s.db name value placed).run s.calls tt);
  }
