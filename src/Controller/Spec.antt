-- ===== src/Controller/Spec.antt =====
-- The functions of internal/controller/database_controller.go that read the spec and the status:
-- validateConnectionSource, getSecretKeyOrDefault, getUsernameOrDefault, needsReconciliation,
-- getSecretNameOrDefault, getRegion.
use database_user_operator.Base.{
  Bool, true, not, ◌||◌, Option, none, some, String, ◌<>◌, ◌==◌, ◌=ℕ◌, if◌then◌else◌, plain, Result,
  ok, err,
}
use database_user_operator.Api.{
  SecretKeyReference, AwsSecretReference, AwsSecretsManagerConfig, Database,
}

abbrev pub current_secret_format_version : String
current_secret_format_version = "v2"

-- Which source of the connection string is configured; both pointers are looked at.
pub data Source : Type 0 where
  kube_secret : SecretKeyReference → Source
  aws_secret : AwsSecretReference → Source

unfoldable pub source_of : Option SecretKeyReference → Option AwsSecretReference → Result Source
source_of (some kube) (some aws) = err (
    plain
      "both ConnectionStringSecretRef and ConnectionStringAWSSecretRef are specified, only one is allowed")
source_of none none =
    err (plain "neither ConnectionStringSecretRef nor ConnectionStringAWSSecretRef is specified")
source_of (some kube) none = ok (kube_secret kube)
source_of none (some aws) = ok (aws_secret aws)

-- validateConnectionSource, with the choice that getConnectionString makes behind it.
unfoldable pub connection_source : Database → Result Source
unfolding source_of
connection_source db =
    source_of db.spec.connection_string_secret_ref db.spec.connection_string_aws_secret_ref

unfoldable pub get_secret_key_or_default : SecretKeyReference → String
get_secret_key_or_default ref = if ref.key == "" then "connectionString" else ref.key

unfoldable pub get_username_or_default : Database → String
get_username_or_default db =
    if not (db.spec.username == "") then db.spec.username else db.spec.database_name

unfoldable pub get_secret_name_or_default : Database → String
get_secret_name_or_default db =
    if not (db.spec.secret_name == "")
    then db.spec.secret_name
    else "rds/" <> (db.spec.engine <> ("/" <> db.spec.database_name))

unfoldable pub needs_reconciliation : Database → Bool
needs_reconciliation db =
    if not db.status.user_created || not db.status.database_created || not db.status.secret_created
    then true
    else if not (db.status.observed_generation =ℕ db.metadata.generation)
    then true
    else not (db.status.secret_format_version == current_secret_format_version)

-- The region of a configuration that may be missing.
unfoldable pub config_region : Option AwsSecretsManagerConfig → String
config_region none = ""
config_region (some c) = c.region

unfoldable pub source_region : Option AwsSecretReference → String
source_region none = ""
source_region (some r) = r.region

-- getRegion: the empty text leaves the choice to the AWS SDK.
unfoldable pub get_region : Database → String
unfolding config_region source_region
get_region db =
    if not (config_region db.spec.aws_secrets_manager == "")
    then config_region db.spec.aws_secrets_manager
    else if not (source_region db.spec.connection_string_aws_secret_ref == "")
    then source_region db.spec.connection_string_aws_secret_ref
    else ""
