-- ===== src/Database/Client/Granting.antt =====
-- The statements of GrantPrivileges of internal/database/postgres.go.
use database_user_operator.Base.{
  ◌≡◌, refl, ap, true, false, String, List, [], ◌∷◌, ◌++◌, ◌⊎◌, inl, inr, Result, ok, err,
}
use database_user_operator.World
use database_user_operator.World.{
  World, Call, Handle, postgres_driver, sql_open, sql_ping, sql_close, sql_exec,
}
use database_user_operator.Effects.{proceed, add_prefix, Calls, perform, wrap, finally, ◌>>=◌}
use database_user_operator.Effects.Fails.{is_err}
use database_user_operator.Effects.Chain.{AllAccepted, Through, StoppedAt, call-Triple}
use database_user_operator.Effects.Triples.{Post, Triple, Triple-bind}
use database_user_operator.Database.Sql.{PostgresStatement}
use database_user_operator.Database.Client.Connect.{Session, exec}
use database_user_operator.Database.Client.Postgres.{target_dsn, grants, grant_privileges}

module _ (w : World) (s : Session) (username name : String) (privileges : List String) where
  -- The connection to the database on which the privileges are granted.
  abbrev pub target : Handle
  target = record { driver = postgres_driver; dsn = target_dsn w s.conn_info name }

  abbrev statement : Handle → PostgresStatement → Call
  statement db p = sql_exec db (World.postgres p)

  -- The calls behind the opening, the newest first: the one that grants on the database goes through the connection of
  -- the client, the others through the new one.
  abbrev pinged : List Call
  pinged = sql_ping target ∷ []

  abbrev on_database : List Call
  on_database =
      statement s.db (PostgresStatement.grant_on_database privileges name username) ∷ pinged

  abbrev on_schema : List Call
  on_schema = statement target (PostgresStatement.grant_on_schema username) ∷ on_database

  abbrev on_tables : List Call
  on_tables = statement target (PostgresStatement.grant_on_tables username) ∷ on_schema

  abbrev pub steps : List Call
  steps = statement target (PostgresStatement.alter_default_privileges username) ∷ on_tables

  module _ (start : Calls) where
    -- Behind the opening of the connection.
    abbrev begun : Calls
    begun = sql_open target ∷ start

    -- How the function ends, for its result and the calls behind it.
    abbrev pub GrantEnds : Result (Unit {0}) → Calls → Type 0
    GrantEnds r calls =
        ((is_err r ≡ false)
          × (is_err (w.reply start (sql_open target)) ≡ false)
          × (calls ≡ sql_close target ∷ (steps ++ begun))
          × AllAccepted w begun steps)
        ⊎ ((is_err r ≡ true) × (is_err (w.reply start (sql_open target)) ≡ true) × (calls ≡ begun))
        ⊎ ((is_err r ≡ true)
            × (is_err (w.reply start (sql_open target)) ≡ false)
            × ((inner : Calls) × (calls ≡ sql_close target ∷ inner)
                × StoppedAt w begun steps inner))

    abbrev Stopped : Calls → Type 0
    Stopped = StoppedAt w begun steps

    grants-Triple :
        Triple
          (Through w begun [])
          (grants w s target username name privileges)
          (λ _. Through w begun steps)
          Stopped
    unfolding grants exec
    grants-Triple =
        let value = λ (_ : Unit {0}). Through w begun steps in
        Triple-bind (λ _. Through w begun pinged) value Stopped _ _
          (call-Triple w begun Stopped [] _ (λ calls h. inr (inr (inr (inr h)))) _)
          (λ _.
            Triple-bind (λ _. Through w begun on_database) value Stopped _ _
              (call-Triple w begun Stopped pinged _ (λ calls h. inr (inr (inr h))) _)
              (λ _.
                Triple-bind (λ _. Through w begun on_schema) value Stopped _ _
                  (call-Triple w begun Stopped on_database _ (λ calls h. inr (inr h)) _)
                  (λ _.
                    Triple-bind (λ _. Through w begun on_tables) value Stopped _ _
                      (call-Triple w begun Stopped on_schema _ (λ calls h. inr h) _)
                      (λ _. call-Triple w begun Stopped on_tables _ (λ calls h. h) _))))

    closed :
        (r : Result (Unit {0})) (calls : Calls)
        → is_err (w.reply start (sql_open target)) ≡ false
        → Post (λ _. Through w begun steps) Stopped (r, calls)
        → GrantEnds r (sql_close target ∷ calls)
    closed (ok _) calls o (same, accepted) =
        inl (refl, o, ap (◌∷◌ (sql_close target)) same, accepted)
    closed (err e) calls o h = inr (inr (refl, o, (calls, refl, h)))

    connected :
        (r : Result (Unit {0}))
        → w.reply start (sql_open target) ≡ r
        → GrantEnds
            (proceed
              (add_prefix "failed to connect to target database" r)
              (λ _.
                finally (grants w s target username name privileges) (perform w (sql_close target)))
              (sql_open target ∷ start)).0
            (proceed
              (add_prefix "failed to connect to target database" r)
              (λ _.
                finally (grants w s target username name privileges) (perform w (sql_close target)))
              (sql_open target ∷ start)).1
    unfolding finally perform
    connected (ok _) e = closed _ _ (ap is_err e) (grants-Triple.run begun (refl, tt))
    connected (err f) e = inr (inl (refl, ap is_err e, refl))

-- Where GrantPrivileges returns without an error, it has opened a connection to the database, pinged
-- it, and granted on the database, on the schema, on the tables and on the tables of the future,
-- each of these was accepted, and the connection was closed. Where it returns an error, either the
-- connection could not be opened, or one of the calls behind was refused, no other was made after
-- it, and the connection was closed.
pub grant_privileges-GrantEnds :
    (w : World) (s : Session) (username name : String) (privileges : List String) (start : Calls)
    → GrantEnds w s username name privileges start
        (grant_privileges w s username name privileges start).0
        (grant_privileges w s username name privileges start).1
unfolding grant_privileges wrap perform ◌>>=◌
grant_privileges-GrantEnds w s username name privileges start =
    connected w s username name privileges start _ refl
