-- ===== src/Secrets/Client/Writes.antt =====
-- What the methods of the AWS client of internal/secrets/aws_secrets_manager.go that write leave in a
-- secret.
use database_user_operator.Base.{
  ◌≡◌, refl, true, eq_iff, Option, none, some, String, ◌∷◌, Result, ok, err, arith, Dict,
}
use database_user_operator.World.{World, Written, DatabaseSecret, create_secret, update_secret}
use database_user_operator.Effects.{Calls, perform, attempt, pure, fail, lift, ◌>>=◌}
use database_user_operator.Effects.Keeps.{Keeps, Keeps-wrap, Keeps-pure, Keeps-bind}
use database_user_operator.Effects.Avoids
use database_user_operator.Effects.Avoids.{Ignores, Kind, kind, secret, write, delete}
use database_user_operator.Effects.Triples.{
  Post, Triple, Triple-if, Triple-bind, Triple-wrap, Triple-pure, Triple-fail, Anything,
  Triple-skip, Triple-then,
}
use database_user_operator.Secrets.Json.{to_json_with_template}
use database_user_operator.Secrets.Client.{
  AwsClient, updated, update_secret_with_template, update_secret_metadata, restore_and_update,
  created, create_secret_with_template,
}
use database_user_operator.Secrets.Client.Calls.{tag_secret-Keeps, get_secret_arn-Keeps}
use database_user_operator.Secrets.Client.Stored.{
  same, when_ok, stored_value, stored-Ignores, Holds, Stored,
}

module _ (w : World) (c : AwsClient) (name : String) (value : DatabaseSecret)
    (template : String) where
  abbrev Here : Calls → Type 0
  Here = Stored w c.region name value template

  -- The value was written as JSON.
  abbrev IsJson : String → Calls → Type 0
  IsJson json calls = to_json_with_template w value template ≡ ok json

  marshal-Triple :
      {before : Calls → Type 0}
      → Triple before (lift (to_json_with_template w value template)) IsJson Anything
  unfolding lift
  marshal-Triple = record {
    run = λ calls p. read (to_json_with_template w value template) calls refl;
  }
    where
      read :
          (r : Result String) (calls : Calls)
          → to_json_with_template w value template ≡ r
          → Post IsJson Anything (r, calls)
      read (ok json) calls e = e
      read (err e) calls h = tt

  same_refl : (region n : String) → same region n region n ≡ true
  same_refl region n = ground (arith, eq_iff region region, eq_iff n n)

  updated-Stored :
      (json : String) (old : Option String) (r : Result Written) (calls : Calls)
      → IsJson json calls
      → stored_value w c.region name calls ≡ when_ok r (some json) old
      → Post (λ _. Here) Anything (updated w name r calls)
  unfolding updated pure fail
  updated-Stored json old (ok output) calls j e = (json, j, e)
  updated-Stored json old (err e) calls j h = tt

  update_with-Triple :
      (json : String)
      → Triple
          (IsJson json)
          (do
            output ← attempt (
                perform w (
                  update_secret c.region
                    (record { secret_id = name; secret_string = some json; description = none })))
            updated w name output)
          (λ _. Here)
          Anything
  unfolding attempt perform stored_value ◌>>=◌
  update_with-Triple json = record {
    run = λ calls j.
        let call =
          update_secret c.region
            (record { secret_id = name; secret_string = some json; description = none }) in
        updated-Stored json (stored_value w c.region name calls) (w.reply calls call) (call ∷ calls)
          j (rw (same_refl c.region name));
  }

  -- An update that returns has stored the JSON of the value.
  pub update_secret-Triple :
      Triple Anything (update_secret_with_template w c name value template) (λ _. Here) Anything
  unfolding update_secret_with_template
  update_secret-Triple =
      Triple-bind IsJson (λ _. Here) Anything _ _ (Triple-wrap IsJson Anything _ _ marshal-Triple)
        update_with-Triple

  unwritten : {A : Type 0} (r : Result A) (old : Option String) → when_ok r old old ≡ old
  unwritten (ok a) old = refl
  unwritten (err e) old = refl

  described-Keeps :
      (description : String)
      → Keeps Here (
          perform w (
            update_secret c.region
              (record { secret_id = name; secret_string = none; description = some description })))
  unfolding perform stored_value
  described-Keeps description = record {
    after = λ calls h.
        let call =
          update_secret c.region
            (record { secret_id = name; secret_string = none; description = some description }) in
        rw
          (
            same_refl c.region name,
            unwritten (w.reply calls call) (stored_value w c.region name calls),
          )
          h;
  }

  -- An update of the description leaves the value.
  metadata-Keeps : (description : String) → Keeps Here (update_secret_metadata w c name description)
  unfolding update_secret_metadata
  metadata-Keeps description =
      Keeps-bind _ _ (Keeps-wrap _ _ (described-Keeps description)) (λ _. Keeps-pure tt)

  ignored : Ignores Here Avoids.secret
  ignored = stored-Ignores w c.region name (Holds w c.region name value template) Avoids.secret refl

  restored-Triple :
      (description : String) (tags : Dict String)
      → Triple Anything
          (restore_and_update w c name description value tags template)
          (λ _. Here)
          Anything
  unfolding restore_and_update
  restored-Triple description tags =
      Triple-skip (λ _. Here) _ _
        (λ _.
          Triple-bind (λ _. Here) (λ _. Here) Anything _ _
            (Triple-wrap _ _ _ _ update_secret-Triple)
            (λ version.
              Triple-then Here (λ _. Here) _ _ (Keeps-wrap _ _ (metadata-Keeps description))
                (λ _.
                  Triple-then Here (λ _. Here) _ _
                    (Keeps-wrap _ _ (tag_secret-Keeps w Here ignored c name tags))
                    (λ _.
                      Triple-then Here (λ _. Here) _ _
                        (Keeps-wrap _ _ (get_secret_arn-Keeps w Here ignored c name))
                        (λ arn. Triple-pure (λ _. Here) Anything _ (λ calls h. h))))))

  created-Stored :
      (description : String) (tags : Dict String) (json : String) (old : Option String)
      (r : Result Written) (calls : Calls)
      → IsJson json calls
      → stored_value w c.region name calls ≡ when_ok r (some json) old
      → Post (λ _. Here) Anything (created w c name description value tags template r calls)
  unfolding created pure fail
  created-Stored description tags json old (ok output) calls j e = (json, j, e)
  created-Stored description tags json old (err e) calls j h =
      (Triple-if (λ _. Here) Anything _ _ _ (restored-Triple description tags)
          (Triple-fail (λ _. Here) Anything _ (λ _ _. tt))).run
        calls tt

  create_with-Triple :
      (description : String) (tags : Dict String) (json : String)
      → Triple
          (IsJson json)
          (do
            output ← attempt (
                perform w (
                  create_secret c.region (record {
                    name = name;
                    description = description;
                    secret_string = json;
                    tags = tags;
                  })))
            created w c name description value tags template output)
          (λ _. Here)
          Anything
  unfolding attempt perform stored_value ◌>>=◌
  create_with-Triple description tags json = record {
    run = λ calls j.
        let call =
          create_secret c.region (record {
            name = name;
            description = description;
            secret_string = json;
            tags = tags;
          }) in
        created-Stored description tags json (stored_value w c.region name calls)
          (w.reply calls call) (call ∷ calls) j (rw (same_refl c.region name));
  }

  -- A creation that returns has stored the JSON of the value, whether it found a secret
  -- that is scheduled for deletion or not.
  pub create_secret-Triple :
      (description : String) (tags : Dict String)
      → Triple Anything
          (create_secret_with_template w c name description value tags template)
          (λ _. Here)
          Anything
  unfolding create_secret_with_template
  create_secret-Triple description tags =
      Triple-bind IsJson (λ _. Here) Anything _ _ (Triple-wrap IsJson Anything _ _ marshal-Triple)
        (create_with-Triple description tags)
