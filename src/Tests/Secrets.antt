-- ===== src/Tests/Secrets.antt =====
-- A secret that is written and read back.
use database_user_operator.Base.{◌≡◌, refl, pos, some, String, [], Result, ok}
use database_user_operator.World
use database_user_operator.World.{World, Call, Reply, DatabaseSecret, Description, get_secret_value}
use database_user_operator.Effects
use database_user_operator.Effects.{Calls}
use database_user_operator.Secrets
use database_user_operator.Secrets.Json.{secret_map, from_fields}
use database_user_operator.Secrets.Client.{
  AwsClient, get_secret, create_secret_with_template, update_secret_with_template,
}
use database_user_operator.Secrets.Client.Stored.{stored_value, Stored}
use database_user_operator.Secrets.Client.ReadBack.{
  ReadsBack, credentials, create_secret-get_secret, update_secret-get_secret,
}
use database_user_operator.Controller
use database_user_operator.Controller.Resources.{adopt_existing}
use database_user_operator.Controller.Resources.Adopt.{adopt_existing-db_password}
use database_user_operator.Tests.Outside.{new_database, fresh_reply, with_reply}

abbrev value : DatabaseSecret
value = record {
  db_host = "h";
  db_port = pos 5432;
  db_name = "shop";
  db_username = "shop";
  db_password = "secret";
  database_url = "postgresql://shop:secret@h:5432/shop";
  engine = "postgres";
}

abbrev keeping_reply : Calls → (c : Call) → Result (Reply c)
keeping_reply calls (World.get_secret_value _ _) = ok (some "{}")
keeping_reply calls c = fresh_reply calls c

-- An AWS account that keeps one secret.
abbrev keeping : World
keeping = record (with_reply keeping_reply) {
  unmarshal_secret = λ s. ok (record value { database_url = ""; engine = "" });
}

abbrev client : AwsClient
client = record { region = "eu-west-1" }

back : ReadsBack keeping client "shop" value
unfolding secret_map from_fields
back json made = refl

abbrev creation : Calls
creation = (create_secret_with_template keeping client "shop" "" value [] "" []).1

answered :
    keeping.reply creation (get_secret_value "eu-west-1" "shop")
    ≡ ok (stored_value keeping "eu-west-1" "shop" creation)
unfolding stored_value create_secret_with_template Secrets.Client.created
    Secrets.Json.to_json_with_template Effects.◌>>=◌ Effects.perform
answered = refl

create_secret-get_secret_example :
    (get_secret keeping client "shop" creation).0 ≡ ok (credentials keeping client "shop" value)
unfolding stored_value create_secret_with_template Secrets.Client.created Secrets.Client.to_string
    Secrets.Json.to_json_with_template Secrets.Client.Default.create_secret Effects.◌>>=◌
    Effects.perform
create_secret-get_secret_example =
    create_secret-get_secret keeping client "shop" "" "arn:1" "v1" value [] [] creation back
      (λ e. cc) refl answered

abbrev rewriting : Calls
rewriting = (update_secret_with_template keeping client "shop" value "" []).1

update_secret-get_secret_example :
    (get_secret keeping client "shop" rewriting).0 ≡ ok (credentials keeping client "shop" value)
unfolding stored_value update_secret_with_template Secrets.Client.updated Secrets.Client.to_string
    Secrets.Json.to_json_with_template Secrets.Client.Default.update_secret Effects.◌>>=◌
    Effects.perform
update_secret-get_secret_example =
    update_secret-get_secret keeping client "shop" "v1" value [] rewriting back (λ e. cc) refl refl

abbrev adoption : Calls
adoption = (adopt_existing keeping client "shop" new_database creation).1

adopts : adopt_existing keeping client "shop" new_database creation ≡ (ok "secret", adoption)
unfolding adopt_existing get_secret Secrets.Client.to_string Secrets.Client.get_secret_tags
    Secrets.Client.tag_secret Controller.Resources.password_in Controller.Tags.sync_tags
    Controller.Tags.remove_tags Controller.Tags.get_tags_to_remove Controller.Tags.existing_tags
    Effects.◌>>=◌ Effects.perform
adopts = refl

stored : Stored keeping "eu-west-1" "shop" value "" creation
unfolding stored_value create_secret_with_template Secrets.Client.created
    Secrets.Json.to_json_with_template Effects.◌>>=◌ Effects.perform
stored = ("{}", refl, refl)

adopt_existing-db_password_example : ◌≡◌ {A = String} "secret" value.db_password
adopt_existing-db_password_example =
    adopt_existing-db_password keeping client "shop" new_database value "secret" creation adoption
      back (λ e. cc) stored answered adopts
