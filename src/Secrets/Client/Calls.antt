-- ===== src/Secrets/Client/Calls.antt =====
-- The calls that the methods of the AWS client make: all but DeleteSecret make none that deletes.
use database_user_operator.Base.{
  ◌≡◌, refl, arith, Bool, Result, ok, err, String, Dict, List, [], ◌∷◌,
}
use database_user_operator.World.{
  World, Description, Written, DatabaseSecret, restore_secret, tag_resource, untag_resource,
}
use database_user_operator.Effects.{Calls, pure, fail}
use database_user_operator.Effects.Keeps.{Keeps, Keeps-wrap, keeps_rules}
use database_user_operator.Effects.Avoids.{Ignores, Keeps-perform, secret, write}
use database_user_operator.Effects.Avoids
use database_user_operator.Secrets.Client.{
  AwsClient, new_aws_client, exists_of, secret_exists, updated, update_secret_with_template,
  update_secret_metadata, restore, tag_secret, untag_secret, get_secret_tags, get_secret_arn,
  restore_and_update, created, create_secret_with_template, deleted, delete, get_secret_string,
  get_secret,
}

-- The errors of a deletion are told apart with no more calls.
pub deleted-calls :
    (w : World) (r : Result (Unit {0})) (calls : Calls) → (deleted w r calls).1 ≡ calls
unfolding deleted pure fail
deleted-calls w (ok _) calls = refl
deleted-calls w (err e) calls = ground arith

module _ (w : World) (P : Calls → Type 0) (h : Ignores P secret) where
  pub new_aws_client-Keeps : (region : String) → Keeps P (new_aws_client w region)
  unfolding new_aws_client
  new_aws_client-Keeps region = search (keeps_rules, Keeps-perform)

  exists_of-Keeps : (r : Result Description) → Keeps P (exists_of w r)
  unfolding exists_of
  exists_of-Keeps (ok d) = search keeps_rules
  exists_of-Keeps (err e) = search keeps_rules

  pub secret_exists-Keeps : (c : AwsClient) (name : String) → Keeps P (secret_exists w c name)
  unfolding secret_exists
  secret_exists-Keeps c name = search (keeps_rules, Keeps-perform, exists_of-Keeps)

  pub restore-Keeps : (c : AwsClient) (name : String) → Keeps P (restore w c name)
  unfolding restore
  restore-Keeps c name = Keeps-wrap _ _ (Keeps-perform w (restore_secret c.region name) h)

  pub tag_secret-Keeps :
      (c : AwsClient) (name : String) (tags : Dict String) → Keeps P (tag_secret w c name tags)
  unfolding tag_secret
  tag_secret-Keeps c name tags =
      Keeps-wrap _ _ (Keeps-perform w (tag_resource c.region name tags) h)

  pub untag_secret-Keeps :
      (c : AwsClient) (name : String) (keys : List String) → Keeps P (untag_secret w c name keys)
  unfolding untag_secret
  untag_secret-Keeps c name [] = search keeps_rules
  untag_secret-Keeps c name (k ∷ ks) =
      Keeps-wrap _ _ (Keeps-perform w (untag_resource c.region name (k ∷ ks)) h)

  pub get_secret_tags-Keeps : (c : AwsClient) (name : String) → Keeps P (get_secret_tags w c name)
  unfolding get_secret_tags
  get_secret_tags-Keeps c name = search (keeps_rules, Keeps-perform)

  pub get_secret_arn-Keeps : (c : AwsClient) (name : String) → Keeps P (get_secret_arn w c name)
  unfolding get_secret_arn
  get_secret_arn-Keeps c name = search (keeps_rules, Keeps-perform)

  pub get_secret_string-Keeps :
      (c : AwsClient) (name : String) → Keeps P (get_secret_string w c name)
  unfolding get_secret_string
  get_secret_string-Keeps c name = search (keeps_rules, Keeps-perform)

  pub get_secret-Keeps : (c : AwsClient) (name : String) → Keeps P (get_secret w c name)
  unfolding get_secret
  get_secret-Keeps c name = search (keeps_rules, Keeps-perform) depth 8

  module _ (v : Ignores P write) where
    updated-Keeps : (name : String) (r : Result Written) → Keeps P (updated w name r)
    unfolding updated
    updated-Keeps name (ok d) = search keeps_rules
    updated-Keeps name (err e) = search keeps_rules

    pub update_secret_with_template-Keeps :
        (c : AwsClient) (name : String) (value : DatabaseSecret) (template : String)
        → Keeps P (update_secret_with_template w c name value template)
    unfolding update_secret_with_template
    update_secret_with_template-Keeps c name value template =
        search (keeps_rules, Keeps-perform, updated-Keeps)

    update_secret_metadata-Keeps :
        (c : AwsClient) (name description : String)
        → Keeps P (update_secret_metadata w c name description)
    unfolding update_secret_metadata
    update_secret_metadata-Keeps c name description = search (keeps_rules, Keeps-perform)

    restore_and_update-Keeps :
        (c : AwsClient) (name description : String) (value : DatabaseSecret) (tags : Dict String)
        (template : String)
        → Keeps P (restore_and_update w c name description value tags template)
    unfolding restore_and_update
    restore_and_update-Keeps c name description value tags template =
        search
          (
            keeps_rules, restore-Keeps, update_secret_with_template-Keeps,
            update_secret_metadata-Keeps, tag_secret-Keeps, get_secret_arn-Keeps,
          )
          depth 12

    created-Keeps :
        (c : AwsClient) (name description : String) (value : DatabaseSecret) (tags : Dict String)
        (template : String) (r : Result Written)
        → Keeps P (created w c name description value tags template r)
    unfolding created
    created-Keeps c name description value tags template (ok d) = search keeps_rules
    created-Keeps c name description value tags template (err e) =
        search (keeps_rules, restore_and_update-Keeps)

    pub create_secret_with_template-Keeps :
        (c : AwsClient) (name description : String) (value : DatabaseSecret) (tags : Dict String)
        (template : String)
        → Keeps P (create_secret_with_template w c name description value tags template)
    unfolding create_secret_with_template
    create_secret_with_template-Keeps c name description value tags template =
        search (keeps_rules, Keeps-perform, created-Keeps) depth 8

module _ (w : World) (P : Calls → Type 0) (h : Ignores P Avoids.delete) where
  deleted-Keeps : (r : Result (Unit {0})) → Keeps P (deleted w r)
  unfolding deleted
  deleted-Keeps (ok d) = search keeps_rules
  deleted-Keeps (err e) = search keeps_rules

  pub delete-Keeps :
      (c : AwsClient) (name : String) (force : Bool) → Keeps P (delete w c name force)
  unfolding delete
  delete-Keeps c name force = search (keeps_rules, Keeps-perform, deleted-Keeps)
