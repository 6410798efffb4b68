-- ===== src/Secrets/Client/Default.antt =====
-- CreateSecret and UpdateSecret of internal/secrets/aws_secrets_manager.go: the methods that write a
-- secret in the default format.
use database_user_operator.Base.{String, Dict}
use database_user_operator.World.{World, DatabaseSecret}
use database_user_operator.Effects.{Effect}
use database_user_operator.Secrets.Client.{
  AwsClient, create_secret_with_template, update_secret_with_template,
}

unfoldable pub create_secret :
    World
    → AwsClient
    → (name description : String) → DatabaseSecret
    → Dict String
    → Effect (String × String)
create_secret w c name description value tags =
    create_secret_with_template w c name description value tags ""

unfoldable pub update_secret : World → AwsClient → (name : String) → DatabaseSecret → Effect String
update_secret w c name value = update_secret_with_template w c name value ""
