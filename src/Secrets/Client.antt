-- ===== src/Secrets/Client.antt =====
-- AWSSecretsManagerClient of internal/secrets/aws_secrets_manager.go, method by method.
pub mod Calls
pub mod Stored
pub mod Writes
pub mod Default
pub mod ReadBack
use database_user_operator.Base.{
  Bool, true, false, Option, none, some, String, List, [], ◌∷◌, ◌==◌, if◌then◌else◌, GoError,
  wrapped, secret_not_found, secret_marked_for_deletion, Result, ok, err, Dict, insert, contains,
  codes,
}
use database_user_operator.World.{
  World, Description, Written, DatabaseSecret, load_config, describe_secret, get_secret_value,
  create_secret, update_secret, delete_secret, restore_secret, tag_resource, untag_resource,
}
use database_user_operator.Effects.{Effect, pure, fail, lift, attempt, wrap, ◌>>=◌, ◌>>◌, perform}
use database_user_operator.Errors.{error_text, as_resource_not_found, as_invalid_request}
use database_user_operator.Secrets.Json.{to_json_with_template, with_old_format}

-- The client of one region.
pub record AwsClient : Type 0 where
  pub region : String

-- aws.ToString
unfoldable pub to_string : Option String → String
to_string none = ""
to_string (some s) = s

-- The loop over the tags of a description: those with a key and a value.
unfoldable pub tags_of : List (Option String × Option String) → Dict String → Dict String
unfolding insert
tags_of [] tags = tags
tags_of ((some k, some v) ∷ rest) tags = tags_of rest (insert k v tags)
tags_of (_ ∷ rest) tags = tags_of rest tags

-- The text of an InvalidRequestException tells why it was refused.
unfoldable pub is_invalid_because : GoError → String → Bool
unfolding contains codes error_text as_invalid_request
is_invalid_because e reason =
    if as_invalid_request e then contains (codes (error_text e)) (codes reason) else false

-- How UpdateSecretWithTemplate returns an error of the service.
unfoldable pub update_error : String → GoError → GoError
unfolding is_invalid_because as_resource_not_found
update_error name e =
    if as_resource_not_found e
    then secret_not_found name e
    else if is_invalid_because e "marked for deletion"
    then secret_marked_for_deletion name e
    else wrapped "failed to update secret" e

module _ (w : World) where
  unfoldable pub new_aws_client : String → Effect AwsClient
  new_aws_client region = do
    resolved ← wrap "failed to load AWS config" (perform w (load_config region))
    pure (record { region = resolved })

  unfoldable pub exists_of : Result Description → Effect Bool
  exists_of (ok d) = pure true
  exists_of (err e) =
      if as_resource_not_found e then pure false else fail (wrapped "failed to describe secret" e)

  unfoldable pub secret_exists : AwsClient → String → Effect Bool
  secret_exists c name = do
    described ← attempt (perform w (describe_secret c.region name))
    exists_of described

  unfoldable pub updated : String → Result Written → Effect String
  updated name (ok output) = pure (to_string output.version_id)
  updated name (err e) = fail (update_error name e)

  -- UpdateSecretWithTemplate
  unfoldable pub update_secret_with_template :
      AwsClient → String → DatabaseSecret → String → Effect String
  update_secret_with_template c name value template = do
    json ← wrap "failed to marshal secret value" (lift (to_json_with_template w value template))
    output ← attempt (
        perform w (
          update_secret c.region
            (record { secret_id = name; secret_string = some json; description = none })))
    updated name output

  -- UpdateSecretMetadata
  unfoldable pub update_secret_metadata : AwsClient → String → String → Effect Unit
  update_secret_metadata c name description = do
    wrap "failed to update secret metadata" (
        perform w (
          update_secret c.region
            (record { secret_id = name; secret_string = none; description = some description })))
    pure tt

  -- RestoreSecret
  unfoldable pub restore : AwsClient → String → Effect Unit
  restore c name = wrap "failed to restore secret" (perform w (restore_secret c.region name))

  -- TagSecret
  unfoldable pub tag_secret : AwsClient → String → Dict String → Effect Unit
  tag_secret c name tags = wrap "failed to tag secret" (perform w (tag_resource c.region name tags))

  -- UntagSecret
  unfoldable pub untag_secret : AwsClient → String → List String → Effect Unit
  untag_secret c name [] = pure tt
  untag_secret c name (key ∷ keys) =
      wrap "failed to untag secret" (perform w (untag_resource c.region name (key ∷ keys)))

  -- GetSecretTags
  unfoldable pub get_secret_tags : AwsClient → String → Effect (Dict String)
  get_secret_tags c name = do
    output ← wrap "failed to describe secret" (perform w (describe_secret c.region name))
    pure (tags_of output.tags [])

  -- GetSecretARN
  unfoldable pub get_secret_arn : AwsClient → String → Effect String
  get_secret_arn c name = do
    output ← wrap "failed to describe secret" (perform w (describe_secret c.region name))
    pure (to_string output.arn)

  -- CreateSecret found the secret scheduled for deletion: it is restored and written again.
  unfoldable pub restore_and_update :
      AwsClient
      → (name description : String) → DatabaseSecret
      → Dict String
      → (template : String) → Effect (String × String)
  restore_and_update c name description value tags template = do
    wrap "failed to restore secret scheduled for deletion" (restore c name)
    version ←
        wrap "failed to update restored secret" (update_secret_with_template c name value template)
    wrap "failed to update secret description" (update_secret_metadata c name description)
    wrap "failed to update secret tags" (tag_secret c name tags)
    arn ← wrap "failed to get secret ARN after restore" (get_secret_arn c name)
    pure (arn, version)

  unfoldable pub created :
      AwsClient
      → (name description : String) → DatabaseSecret
      → Dict String
      → (template : String) → Result Written
      → Effect (String × String)
  created c name description value tags template (ok output) =
      pure (to_string output.arn, to_string output.version_id)
  created c name description value tags template (err e) =
      if is_invalid_because e "scheduled for deletion"
      then restore_and_update c name description value tags template
      else fail (wrapped "failed to create secret" e)

  -- CreateSecretWithTemplate
  unfoldable pub create_secret_with_template :
      AwsClient
      → (name description : String) → DatabaseSecret
      → Dict String
      → (template : String) → Effect (String × String)
  create_secret_with_template c name description value tags template = do
    json ← wrap "failed to marshal secret value" (lift (to_json_with_template w value template))
    output ← attempt (
        perform w (
          create_secret c.region
            (record { name = name; description = description; secret_string = json; tags = tags })))
    created c name description value tags template output

  unfoldable pub deleted : Result (Unit {0}) → Effect Unit
  deleted (ok _) = pure tt
  deleted (err e) =
      if as_resource_not_found e then pure tt else fail (wrapped "failed to delete secret" e)

  -- DeleteSecret, with a recovery window of 7 days if it is not forced.
  unfoldable pub delete : AwsClient → String → Bool → Effect Unit
  delete c name force = do
    output ←
        attempt (perform w (delete_secret c.region name force (if force then none else some 7)))
    deleted output

  -- GetSecretString
  unfoldable pub get_secret_string : AwsClient → String → Effect String
  get_secret_string c name = do
    output ← wrap "failed to get secret value" (perform w (get_secret_value c.region name))
    pure (to_string output)

  -- GetSecret: the new format, and the old one if that has no password.
  unfoldable pub get_secret : AwsClient → String → Effect DatabaseSecret
  get_secret c name = do
    output ← wrap "failed to get secret value" (perform w (get_secret_value c.region name))
    secret ← wrap "failed to unmarshal secret value" (lift (w.unmarshal_secret (to_string output)))
    if secret.db_password == ""
        then pure (with_old_format secret (w.unmarshal_map (to_string output)))
        else pure secret
