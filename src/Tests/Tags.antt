-- ===== src/Tests/Tags.antt =====
-- The theorems on tags, stored credentials and passwords at concrete objects.
use database_user_operator.Base.{
  ◌≡◌, refl, true, false, String, [], ◌∷◌, some, none, inl, ok, Dict, lookup, insert_all, has_key,
  IsDistinct, if◌then◌else◌, ◌==◌,
}
use database_user_operator.World.{postgres_driver, delete_secret, load_config}
use database_user_operator.Effects
use database_user_operator.Effects.{Calls}
use database_user_operator.Effects.Avoids.{Avoids, by_kind}
use database_user_operator.Database.Client.{Client, postgres_client}
use database_user_operator.Secrets
use database_user_operator.Secrets.Client.{AwsClient}
use database_user_operator.Controller
use database_user_operator.Controller.Calls.{Clean}
use database_user_operator.Controller.Spec.{get_region}
use database_user_operator.Controller.Tags.{
  config_tags, desired_tags, get_tags_to_remove, get_tags_to_add,
}
use database_user_operator.Controller.Tags.Laws.{
  untag, get_tags_to_remove_syncs, get_tags_to_add_suffices, desired_tags_precedence,
}
use database_user_operator.Controller.Store.{write_and_tag, store_secret}
use database_user_operator.Controller.Store.Laws.{deletes, store_secret-Stays}
use database_user_operator.Controller.Store.DefaultRegion.{store_secret_deletes_current}
use database_user_operator.Controller.Resources.{Found, create, password_for}
use database_user_operator.Controller.Resources.Password.{sets, password_for_existing}
use database_user_operator.Tests.Outside.{
  fresh, resolving, new_database, new_state, tagged_database, regionless_database, empty_secret,
}

abbrev old_tags : Dict String
old_tags = ("old", "1") ∷ ("ManagedBy", "someone") ∷ []

get_tags_to_remove_syncs_example :
    lookup "old" (
      insert_all
        (desired_tags tagged_database)
        (untag (get_tags_to_remove old_tags (desired_tags tagged_database)) old_tags))
    ≡ lookup "old" (desired_tags tagged_database)
get_tags_to_remove_syncs_example = get_tags_to_remove_syncs tagged_database old_tags "old"

abbrev wanted_tags : Dict String
wanted_tags = ("team", "shop") ∷ ("ManagedBy", "operator") ∷ []

get_tags_to_add_suffices_example :
    lookup "ManagedBy" (insert_all (get_tags_to_add old_tags wanted_tags) old_tags)
    ≡ lookup "ManagedBy" (insert_all wanted_tags old_tags)
unfolding IsDistinct has_key
get_tags_to_add_suffices_example =
    get_tags_to_add_suffices old_tags wanted_tags "ManagedBy" (refl, (refl, tt))

desired_tags_precedence_example : lookup "team" (desired_tags tagged_database) ≡ (
    if has_key "team" (config_tags tagged_database.spec.aws_secrets_manager)
    then lookup "team" (config_tags tagged_database.spec.aws_secrets_manager)
    else if "ManagedBy" == "team"
    then some "database-user-operator"
    else none)
unfolding IsDistinct has_key config_tags
desired_tags_precedence_example = desired_tags_precedence tagged_database "team" (refl, tt)

store_secret-Stays_example :
    Avoids (by_kind deletes) (store_secret fresh new_database "name" empty_secret []).1
unfolding Controller.Store.moves Controller.Store.region_changed
store_secret-Stays_example =
    store_secret-Stays fresh new_database "name" empty_secret [] tt (inl refl)

abbrev session : Client
session = postgres_client (record {
  db = record { driver = postgres_driver; dsn = "postgres://a:b@h/db" };
  conn_info = record {
    host = "h";
    port = "5432";
    database = "db";
    username = "a";
    password = "b";
    ssl_mode = "require";
  };
})

abbrev without_database : Found
without_database = record { user = true; database = false; secret = true }

abbrev aws_client : AwsClient
aws_client = record { region = "eu-west-1" }

password_for_existing_example :
    Clean sets
      (password_for fresh session aws_client without_database create "shop" "name" new_state).1
password_for_existing_example =
    password_for_existing fresh session without_database "shop" refl aws_client create "name"
      new_state tt

-- The calls that write a secret when the region is not given.
abbrev written_calls : Calls
written_calls = (write_and_tag resolving regionless_database "name" empty_secret []).1

written_secret :
    write_and_tag resolving regionless_database "name" empty_secret []
    ≡ (ok ("arn:1", "v1", "eu-west-1"), written_calls)
unfolding Effects.◌>>=◌ Effects.perform Controller.Store.moves Controller.Store.look_in_old_region
    Controller.Store.create_new Controller.Store.write_secret Controller.Store.write_and_tag
    Controller.Tags.get_tags_to_remove Controller.Tags.existing_tags Controller.Tags.remove_tags
    Controller.Tags.sync_tags Secrets.Client.to_string Secrets.Client.update_error
    Secrets.Client.new_aws_client Secrets.Client.exists_of Secrets.Client.secret_exists
    Secrets.Client.tag_secret Secrets.Client.get_secret_tags Secrets.Client.created
    Secrets.Client.create_secret_with_template Secrets.Region.validate_region
    Secrets.Json.to_json_with_template Controller.Spec.get_region
written_secret = refl

store_secret_deletes_current_example :
    store_secret resolving regionless_database "name" empty_secret [] ≡ (
      ok ("arn:1", "v1", "eu-west-1"),
      delete_secret "eu-west-1" "name" true none ∷ load_config "eu-west-1" ∷ written_calls,
    )
unfolding get_region
store_secret_deletes_current_example =
    store_secret_deletes_current resolving regionless_database "name" empty_secret [] written_calls
      "arn:1" "v1" "eu-west-1" refl written_secret refl (λ h. cc) (λ h. cc) refl
