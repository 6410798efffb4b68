-- ===== src/Tests/Lifecycle.antt =====
-- Objects on an API server that is a function of what it stores.
use mathlib.Core.Path.{subst}
use database_user_operator.Base.{
  ◌≡◌, refl, Bool, true, false, Option, none, some, String, List, [], ◌∷◌, if◌then◌else◌, ◌&&◌,
  arith,
}
use database_user_operator.Effects
use database_user_operator.Controller
use database_user_operator.Database
use database_user_operator.Secrets
use database_user_operator.Effects.{Calls}
use database_user_operator.Api.{Database}
use database_user_operator.Controller.Delete.{has_finalizer}
use database_user_operator.Controller.Reconcile.{add_finalizer}
use database_user_operator.Controller.Resources.{reconcile_database}
use database_user_operator.Controller.Lifecycle.{
  ApiServer, reconciled, started, Step, create, edit, delete, reconcile, Reach, start, next,
}
use database_user_operator.Controller.Lifecycle.Kept.{Moves, stage}
use database_user_operator.Controller.Lifecycle.Stages.{reconciled-Moves}
use database_user_operator.Controller.Lifecycle.Reachable.{reachable-Protected}
use database_user_operator.Controller.Lifecycle.Converges.{IsSettled, settles_in_two}
use database_user_operator.Tests.Controller.{created}
use database_user_operator.Tests.Outside.{fresh, new_database, bare_state}

is_empty : List String → Bool
is_empty [] = true
is_empty (f ∷ fs) = false

abbrev server_updated : Database → Database → Option Database
server_updated stored sent =
    if stored.metadata.deleted && is_empty sent.metadata.finalizers
    then none
    else some (record sent {
      metadata = record sent.metadata { deleted = stored.metadata.deleted };
      status = stored.status;
    })

abbrev server_deleted : Database → Option Database
server_deleted stored =
    if is_empty stored.metadata.finalizers
    then none
    else some (record stored { metadata = record stored.metadata { deleted = true } })

server_updated-deleted :
    (stored sent object : Database)
    → server_updated stored sent ≡ some object
    → object.metadata.deleted ≡ stored.metadata.deleted
server_updated-deleted stored sent object e = ground (arith, e)

server_updated-finalizers :
    (stored sent object : Database)
    → server_updated stored sent ≡ some object
    → object.metadata.finalizers ≡ sent.metadata.finalizers
server_updated-finalizers stored sent object e = ground (arith, e)

server_updated-status :
    (stored sent object : Database)
    → server_updated stored sent ≡ some object
    → object.status ≡ stored.status
server_updated-status stored sent object e = ground (arith, e)

server_updated-alive :
    (stored sent : Database)
    → stored.metadata.deleted ≡ false
    → (object : Database) × (server_updated stored sent ≡ some object)
server_updated-alive stored sent alive = (
  record sent {
    metadata = record sent.metadata { deleted = stored.metadata.deleted };
    status = stored.status;
  },
  rw alive refl,
)

server_deleted-deleted :
    (stored object : Database)
    → server_deleted stored ≡ some object
    → object.metadata.deleted ≡ true
server_deleted-deleted stored object e = ground (arith, e)

has_finalizer-is_empty : (fs : List String) → has_finalizer fs ≡ true → is_empty fs ≡ false
unfolding has_finalizer is_empty
has_finalizer-is_empty [] h = cc
has_finalizer-is_empty (f ∷ fs) h = refl

server_deleted-stays :
    (stored : Database)
    → has_finalizer stored.metadata.finalizers ≡ true
    → (object : Database) × (server_deleted stored ≡ some object)
server_deleted-stays stored has = (
  record stored { metadata = record stored.metadata { deleted = true } },
  rw (has_finalizer-is_empty stored.metadata.finalizers has) refl,
)

abbrev server : ApiServer
server = record {
  updated = server_updated;
  status_updated = λ stored sent. record stored { status = sent.status };
  deleted = server_deleted;
  updated-deleted = server_updated-deleted;
  updated-finalizers = server_updated-finalizers;
  updated-status = server_updated-status;
  updated-alive = server_updated-alive;
  status_updated-metadata = λ stored sent. refl;
  status_updated-status = λ stored sent. refl;
  deleted-deleted = server_deleted-deleted;
  deleted-stays = server_deleted-stays;
}

reconciled-Moves_example :
    Moves (stage (some bare_state.db)) (stage (reconciled server fresh bare_state.db))
reconciled-Moves_example = reconciled-Moves server fresh bare_state.db

gains : server_updated bare_state.db (add_finalizer bare_state.db) ≡ some new_database
unfolding add_finalizer is_empty
gains = refl

settles_in_two_example :
    (reconciled server fresh bare_state.db ≡ some new_database)
    × IsSettled (reconciled server fresh new_database)
unfolding has_finalizer
settles_in_two_example =
    settles_in_two server fresh fresh bare_state.db new_database refl refl (λ calls. refl) gains
      created (λ calls sent. refl)

-- The object of the second reconciliation, for which everything was created.
abbrev found_in : Option Database → Database
found_in none = new_database
found_in (some db) = db

abbrev settled_database : Database
settled_database = found_in (reconciled server fresh new_database)

settled :
    (reconciled server fresh new_database ≡ some settled_database)
    × (started settled_database.status ≡ true)
    × (settled_database.metadata.deleted ≡ false)
unfolding Effects.finally Controller.State.effect Controller.State.current
    Controller.State.modify_status Controller.State.event Controller.Spec.connection_source
    Controller.Spec.get_secret_key_or_default Controller.Spec.needs_reconciliation
    Controller.Spec.get_region Controller.Resources.create_missing Controller.Resources.password_for
    Controller.Resources.look_up Controller.Resources.ensure_resources
    Controller.Resources.store_with Controller.Resources.reconcile_with
    Controller.Resources.reconcile_needed Controller.Resources.reconcile_database
    Controller.Source.data_text Controller.Source.connection_string_from_kube_secret
    Controller.Source.connection_string_from Controller.Source.get_connection_string
    Controller.Store.moves Controller.Store.look_in_old_region Controller.Store.create_new
    Controller.Store.write_secret Controller.Store.delete_in_old_region
    Controller.Store.write_and_tag Controller.Store.store_secret
    Controller.Store.store_credentials_in_aws Controller.Tags.get_tags_to_remove
    Controller.Tags.existing_tags Controller.Tags.remove_tags Controller.Tags.sync_tags
    Database.Client.is_engine Database.Client.new_client Database.Client.create_user
    Database.Client.user_exists Database.Client.create_database Database.Client.database_exists
    Database.Client.grant_all_privileges Database.Client.generate_password
    Database.Client.Connect.exec Database.Client.Connect.pinged Database.Client.Connect.connect
    Database.Client.Postgres.new_session Database.Client.Postgres.database_exists
    Database.Client.Postgres.create_database Database.Client.Postgres.user_exists
    Database.Client.Postgres.add_user Database.Client.Postgres.create_user
    Database.Client.Postgres.grants Database.Client.Postgres.grant_privileges
    Database.Client.Postgres.grant_all_privileges Database.Connection.parse_connection_string
    Secrets.Client.update_error Secrets.Client.new_aws_client Secrets.Client.exists_of
    Secrets.Client.secret_exists Secrets.Client.tag_secret Secrets.Client.get_secret_tags
    Secrets.Client.created Secrets.Client.create_secret_with_template Secrets.Region.validate_region
    Secrets.Json.to_json_with_template Secrets.Json.with_old_format
    Controller.Reconcile.reconcile_object Controller.Reconcile.dispatch
    Controller.Reconcile.reconcile_live Controller.Reconcile.finish Controller.Reconcile.on_success
    Controller.Delete.has_finalizer Controller.Lifecycle.stored_object
    Controller.Store.stored_status Database.Client.close
settled = (refl, refl, refl)

reached : Reach server false (some settled_database)
reached = subst (Reach server false) settled.0 (
    next false (some new_database) _ (next false none _ start (create new_database refl refl))
      (reconcile fresh new_database))

reachable-Protected_example :
    (has_finalizer settled_database.metadata.finalizers ≡ true)
    × ((found : Database) × (server.deleted settled_database ≡ some found)
        × (found.metadata.deleted ≡ true))
reachable-Protected_example =
    reachable-Protected server settled_database reached settled.1 settled.2
