-- ===== src/Controller/Source.antt =====
-- getConnectionString, getConnectionStringFromK8sSecret and getConnectionStringFromAWSSecret of
-- internal/controller/database_controller.go.
use database_user_operator.Base.{
  Option, none, some, String, ◌<>◌, ◌==◌, if◌then◌else◌, contains, codes, plain, Result, ok, err,
  lookup,
}
use database_user_operator.World.{World, Value, text, get_kube_secret}
use database_user_operator.Effects.{Effect, pure, fail, lift, wrap, ◌>>=◌, ◌>>◌, perform}
use database_user_operator.Api.{SecretKeyReference, AwsSecretReference, Database}
use database_user_operator.Secrets.Region.{validate_region}
use database_user_operator.Secrets.Client.{new_aws_client, get_secret_string}
use database_user_operator.Controller.Spec.{
  Source, kube_secret, aws_secret, connection_source, get_secret_key_or_default,
}

-- string(secret.Data[key])
unfoldable pub data_text : Option String → String
data_text none = ""
data_text (some s) = s

-- The connection string in a JSON object.
unfoldable pub connection_value : String → Option Value → Result String
connection_value key none = err (plain ("key " <> (key <> " not found in AWS secret")))
connection_value key (some (text s)) = ok s
connection_value key (some _) =
    err (plain ("value for key " <> (key <> " in AWS secret is not a string")))

module _ (w : World) where
  unfoldable pub connection_string_from_kube_secret :
      (namespace : String) → SecretKeyReference → Effect String
  connection_string_from_kube_secret namespace ref = do
    secret ← perform w (get_kube_secret namespace ref.name)
    let key = get_secret_key_or_default ref
    let connection_string = data_text (lookup key secret)
    if connection_string == ""
        then fail
            (plain ("connection string is empty in secret " <> (ref.name <> (" key " <> key))))
        else pure connection_string

  -- A secret with a brace is JSON, and any other is the connection string itself.
  unfoldable pub connection_string_in : (key secret : String) → Effect String
  connection_string_in key secret =
      if contains (codes secret) (codes "{")
      then (do
        object ← wrap "failed to parse AWS secret as JSON" (lift (w.unmarshal_map secret))
        lift (connection_value key (lookup key object)))
      else pure secret

  unfoldable pub connection_string_from_aws_secret : AwsSecretReference → Effect String
  connection_string_from_aws_secret ref = do
    wrap "invalid AWS region for admin connection string" (lift (validate_region ref.region))
    c ←
        wrap "failed to create AWS Secrets Manager client (ensure pod has AWS permissions)"
          (new_aws_client w ref.region)
    secret ←
        wrap
          ("failed to get secret '"
            <> (ref.secret_name
                <> "' from AWS Secrets Manager (check IAM permissions and secret exists)"))
          (get_secret_string w c ref.secret_name)
    connection_string_in (if ref.key == "" then "connectionString" else ref.key) secret

  unfoldable pub connection_string_from : (namespace : String) → Source → Effect String
  connection_string_from namespace (kube_secret ref) =
      connection_string_from_kube_secret namespace ref
  connection_string_from namespace (aws_secret ref) = connection_string_from_aws_secret ref

  unfoldable pub get_connection_string : Database → Effect String
  get_connection_string db = do
    source ← lift (connection_source db)
    connection_string_from db.metadata.namespace source
