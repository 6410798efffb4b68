-- ===== src/Tests/Controller.antt =====
-- Reconciliations of concrete objects.
use database_user_operator.Base.{◌≡◌, refl, ok, []}
use database_user_operator.Effects
use database_user_operator.Effects.{Calls}
use database_user_operator.Controller
use database_user_operator.Database
use database_user_operator.Secrets
use database_user_operator.Controller.Resources.{reconcile_database}
use database_user_operator.Controller.Reconcile.{reconcile_live}
use database_user_operator.Controller.Reconcile.Laws.{Settled, reconcile_live-Settled}
use database_user_operator.Tests.Outside.{fresh, new_state, new_database, moved_database}

-- The work on a new object succeeds, whatever calls were made before, also where its status names
-- another region than its spec.
both_created :
    (calls : Calls)
    → ((reconcile_database fresh (record { db = new_database; calls = calls })).0 ≡ ok tt)
      × ((reconcile_database fresh (record { db = moved_database; calls = calls })).0 ≡ ok tt)
unfolding Effects.finally Controller.State.effect Controller.State.current
    Controller.State.modify_status Controller.State.event Controller.Spec.connection_source
    Controller.Spec.get_secret_key_or_default Controller.Spec.needs_reconciliation
    Controller.Spec.get_region Controller.Resources.create_missing Controller.Resources.password_for
    Controller.Resources.look_up Controller.Resources.ensure_resources
    Controller.Resources.store_with Controller.Resources.reconcile_with
    Controller.Resources.reconcile_needed Controller.Resources.reconcile_database
    Controller.Source.data_text Controller.Source.connection_string_from_kube_secret
    Controller.Source.connection_string_from Controller.Source.get_connection_string
    Controller.Store.moves Controller.Store.region_changed Secrets.Client.delete
    Secrets.Client.deleted Secrets.Client.to_string Controller.Store.look_in_old_region
    Controller.Store.create_new Controller.Store.write_secret Controller.Store.delete_in_old_region
    Controller.Store.write_and_tag Controller.Store.store_secret
    Controller.Store.store_credentials_in_aws Controller.Tags.get_tags_to_remove
    Controller.Tags.existing_tags Controller.Tags.remove_tags Controller.Tags.sync_tags
    Database.Client.is_engine Database.Client.new_client Database.Client.create_user
    Database.Client.user_exists Database.Client.create_database Database.Client.database_exists
    Database.Client.grant_all_privileges Database.Client.generate_password
    Database.Client.Connect.exec Database.Client.Connect.pinged Database.Client.Connect.connect
    Database.Client.Postgres.new_session Database.Client.Postgres.database_exists
    Database.Client.Postgres.create_database Database.Client.Postgres.user_exists
    Database.Client.Postgres.add_user Database.Client.Postgres.create_user
    Database.Client.Postgres.grants Database.Client.Postgres.grant_privileges
    Database.Client.Postgres.grant_all_privileges Database.Connection.parse_connection_string
    Secrets.Client.update_error Secrets.Client.new_aws_client Secrets.Client.exists_of
    Secrets.Client.secret_exists Secrets.Client.tag_secret Secrets.Client.get_secret_tags
    Secrets.Client.created Secrets.Client.create_secret_with_template Secrets.Region.validate_region
    Secrets.Json.to_json_with_template Secrets.Json.with_old_format
both_created calls = (refl, refl)

pub created :
    (calls : Calls)
    → (reconcile_database fresh (record { db = new_database; calls = calls })).0 ≡ ok tt
created calls = (both_created calls).0

pub created_elsewhere :
    (calls : Calls)
    → (reconcile_database fresh (record { db = moved_database; calls = calls })).0 ≡ ok tt
created_elsewhere calls = (both_created calls).1

reconcile_live-Settled_example : Settled (reconcile_live fresh new_state).1
reconcile_live-Settled_example = reconcile_live-Settled fresh new_state (created [])
