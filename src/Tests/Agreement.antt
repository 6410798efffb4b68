-- ===== src/Tests/Agreement.antt =====
-- The credentials that are stored for a new object.
use database_user_operator.Base.{◌≡◌, ◌≢◌, Result, refl, ap, ok, some, true, false, [], String}
use database_user_operator.Effects
use database_user_operator.Controller
use database_user_operator.Database
use database_user_operator.World
use database_user_operator.Database.Client
use database_user_operator.Database.Client.{Client, postgres_client}
use database_user_operator.Database.Client.Given.{given_password}
use database_user_operator.Controller.State.{State}
use database_user_operator.Controller.Spec.{
  get_region, get_username_or_default, needs_reconciliation,
}
use database_user_operator.Controller.Store.{moves}
use database_user_operator.Controller.Store.Moved.{Resolves}
use database_user_operator.Controller.Resources.{
  Found, create_missing, reconcile_with, reconcile_database,
}
use database_user_operator.Controller.Resources.Password.{create_missing-given_password}
use database_user_operator.Tests.Controller.{created, created_elsewhere}
use database_user_operator.Controller.Resources.Credentials.{
  SomeAgreement, reconcile_database-Agreement, reconcile_database-Agreement_moved,
}
use database_user_operator.Controller.Reconcile.{reconcile}
use database_user_operator.Controller.Reconcile.Balance.{reconcile-open_handles}
use database_user_operator.Database.Client.Handles.{open_handles}
use database_user_operator.Tests.Outside.{fresh, new_state, moved_database}

abbrev client : Client
client = postgres_client (record {
  db = record { driver = World.postgres_driver; dsn = "postgres://h/db" };
  conn_info = record {
    host = "h";
    port = "5432";
    database = "db";
    username = "a";
    password = "b";
    ssl_mode = "require";
  };
})

abbrev nothing : Found
nothing = record { user = false; database = false; secret = false }

abbrev after_work : State
after_work = (reconcile_database fresh new_state).1

needed : (needs_reconciliation new_state.db ≡ true) × (moves new_state.db ≡ false)
unfolding needs_reconciliation Controller.Store.moves Controller.Store.region_changed
    Controller.Spec.get_region
needed = (refl, refl)

reconcile_database-Agreement_example :
    SomeAgreement fresh
      (get_username_or_default new_state.db)
      (given_password fresh (get_username_or_default new_state.db) new_state.calls)
      after_work
reconcile_database-Agreement_example =
    reconcile_database-Agreement fresh new_state after_work needed.0 needed.1
      (ap (λ r. (r, after_work)) (created []))

abbrev moved_state : State
moved_state = record { db = moved_database; calls = [] }

abbrev after_move : State
after_move = (reconcile_database fresh moved_state).1

resolving : Resolves fresh
resolving calls region resolved given e = ok_injective e
  where
    ok_injective : {s t : String} → ◌≡◌ {A = Result String} (ok s) (ok t) → t ≡ s
    ok_injective e = cc

move_needed : needs_reconciliation moved_state.db ≡ true
unfolding needs_reconciliation
move_needed = refl

region_given : get_region moved_state.db ≢ ""
unfolding Controller.Spec.get_region
region_given e = cc

reconcile_database-Agreement_moved_example :
    SomeAgreement fresh
      (get_username_or_default moved_state.db)
      (given_password fresh (get_username_or_default moved_state.db) moved_state.calls)
      after_move
reconcile_database-Agreement_moved_example =
    reconcile_database-Agreement_moved fresh moved_state after_move resolving region_given
      move_needed (ap (λ r. (r, after_move)) (created_elsewhere []))

abbrev password : String
password = "AQID"

abbrev after_creation : State
after_creation = (create_missing fresh client nothing "shop" new_state).1

made : create_missing fresh client nothing "shop" new_state ≡ (ok password, after_creation)
unfolding Controller.State.effect Controller.State.current Controller.State.modify_status
    Controller.Resources.create_missing Database.Client.create_user Database.Client.create_database
    Database.Client.generate_password Database.Client.Connect.exec
    Database.Client.Postgres.database_exists Database.Client.Postgres.create_database
    Database.Client.Postgres.user_exists Database.Client.Postgres.add_user
    Database.Client.Postgres.create_user Database.Password.password_of
    Database.Password.password_length Effects.◌>>=◌ Effects.perform
made = refl

create_missing-given_password_example :
    given_password fresh "shop" after_creation.calls ≡ some password
unfolding given_password
create_missing-given_password_example =
    create_missing-given_password fresh client nothing "shop" password new_state after_creation refl
      refl made

reconcile-open_handles_example :
    open_handles fresh (reconcile fresh "default" "shop" []).1 ≡ open_handles fresh []
reconcile-open_handles_example = reconcile-open_handles fresh "default" "shop" []
