-- ===== src/Database/Client/Given.antt =====
-- The password that a database server knows for a user, as a reading of the statements that it
-- accepted, and what the methods of the clients do to it.
use database_user_operator.Base.{
  ◌≡◌, refl, ap, ◌∙◌, Bool, true, false, ◌==◌, eq_iff, Option, none, some, String, [], ◌∷◌,
  if◌then◌else◌, Result, ok, err, arith, ◌⊎◌, inl, inr,
}
use database_user_operator.World
use database_user_operator.World.{World, Call, Statement, Handle, sql_exec}
use database_user_operator.Effects.{Calls, perform}
use database_user_operator.Effects.Keeps.{Keeps, Keeps-wrap, Keeps-bind, Keeps-if}
use database_user_operator.Effects.Avoids.{Ignores, Kind, kind, sql, password, drop}
use database_user_operator.Effects.Triples.{
  Post, Triple, Triple-if, Triple-bind, Triple-reached, Triple-then, Anything, Triple-wrap,
}
use database_user_operator.Database.Sql.{PostgresStatement, MysqlStatement}
use database_user_operator.Database.Client
use database_user_operator.Database.Client.{Client, postgres_client, mysql_client}
use database_user_operator.Database.Client.Connect.{exec}
use database_user_operator.Database.Client.Calls.{exec-Keeps, postgres_user_exists-Keeps}
use database_user_operator.Database.Client.Postgres
use database_user_operator.Database.Client.Mysql

-- MySQL's CREATE USER IF NOT EXISTS leaves a user that exists.
abbrev first_given : String → Option String → Option String
first_given p none = some p
first_given p (some q) = some q

-- A statement that the server accepted.
abbrev accepted : (user : String) → Statement → Option String → Option String
accepted u (World.postgres (PostgresStatement.create_user v p)) r = if v == u then some p else r
accepted u (World.postgres (PostgresStatement.alter_user v p)) r = if v == u then some p else r
accepted u (World.postgres (PostgresStatement.drop_user v)) r = if v == u then none else r
accepted u (World.mysql (MysqlStatement.create_user v p)) r = if v == u then first_given p r else r
accepted u (World.mysql (MysqlStatement.alter_user v p)) r = if v == u then some p else r
accepted u (World.mysql (MysqlStatement.drop_user v)) r = if v == u then none else r
accepted u _ r = r

abbrev executed : Result (Unit {0}) → (user : String) → Statement → Option String → Option String
executed (ok _) u s r = accepted u s r
executed (err e) u s r = r

-- The password of a user, `none` if no statement gave it one.
unfoldable pub given_password : World → (user : String) → Calls → Option String
given_password w u [] = none
given_password w u (World.sql_exec h s ∷ calls) =
    executed (w.reply calls (sql_exec h s)) u s (given_password w u calls)
given_password w u (c ∷ calls) = given_password w u calls

-- The user has the password that it had, or this one.
abbrev pub Agrees : World → (user : String) → (before : Option String) → String → Calls → Type 0
Agrees w u before p calls =
    (given_password w u calls ≡ before) ⊎ (given_password w u calls ≡ some p)

abbrev pub gives : Kind → Bool
gives password = true
gives drop = true
gives _ = false

executed-err :
    (r : Result (Unit {0})) (u : String) (s : Statement) (o : Option String)
    → accepted u s o ≡ o
    → executed r u s o ≡ o
executed-err (ok _) u s o h = h
executed-err (err e) u s o h = refl

module _ (w : World) (u : String) where
  other-accepted :
      (s : Statement) (h : Handle) (o : Option String)
      → gives (kind (sql_exec h s)) ≡ false
      → accepted u s o ≡ o
  other-accepted (World.postgres (PostgresStatement.create_user v p)) h o e = cc
  other-accepted (World.postgres (PostgresStatement.alter_user v p)) h o e = cc
  other-accepted (World.postgres (PostgresStatement.drop_user v)) h o e = cc
  other-accepted (World.mysql (MysqlStatement.create_user v p)) h o e = cc
  other-accepted (World.mysql (MysqlStatement.alter_user v p)) h o e = cc
  other-accepted (World.mysql (MysqlStatement.drop_user v)) h o e = cc
  other-accepted _ h o e = refl

  other-given :
      (c : Call) (calls : Calls)
      → gives (kind c) ≡ false
      → given_password w u (c ∷ calls) ≡ given_password w u calls
  unfolding given_password
  other-given (World.sql_exec h s) calls e =
      executed-err (w.reply calls (sql_exec h s)) u s _ (other-accepted s h _ e)
  other-given _ calls e = refl

  pub given-Ignores :
      (Q : Option String → Type 0) (k : Kind)
      → gives k ≡ false
      → Ignores (λ calls. Q (given_password w u calls)) k
  given-Ignores Q k h = record { more = λ c calls e q. rw (other-given c calls (ap gives e ∙ h)) q }

  module _ (before : Option String) (p : String) where
    abbrev Agreed : Option String → Type 0
    Agreed o = (o ≡ before) ⊎ (o ≡ some p)

    pub Agrees-Ignores : (k : Kind) → gives k ≡ false → Ignores (Agrees w u before p) k
    Agrees-Ignores = given-Ignores Agreed

    -- A statement that leaves the password or sets this one.
    executed-Agreed :
        (r : Result (Unit {0})) (s : Statement) (o : Option String)
        → Agreed o
        → (accepted u s o ≡ o) ⊎ (accepted u s o ≡ some p)
        → Agreed (executed r u s o)
    executed-Agreed (ok _) s o a h = ground (arith, a, h)
    executed-Agreed (err e) s o a h = a

    exec-Agrees :
        (h : Handle) (s : Statement) (prefix : String)
        → ((o : Option String) → (accepted u s o ≡ o) ⊎ (accepted u s o ≡ some p))
        → Keeps (Agrees w u before p) (exec w h s prefix)
    unfolding exec perform given_password
    exec-Agrees h s prefix sets = Keeps-wrap prefix _ (record {
      after = λ calls a. executed-Agreed (w.reply calls (sql_exec h s)) s _ a (sets _);
    })

    altered :
        (o : Option String)
        → (accepted u (World.postgres (PostgresStatement.alter_user u p)) o ≡ o)
          ⊎ (accepted u (World.postgres (PostgresStatement.alter_user u p)) o ≡ some p)
    altered o = inr (ground (arith, eq_iff u u))

    created :
        (o : Option String)
        → (accepted u (World.postgres (PostgresStatement.create_user u p)) o ≡ o)
          ⊎ (accepted u (World.postgres (PostgresStatement.create_user u p)) o ≡ some p)
    created o = inr (ground (arith, eq_iff u u))

    created_mysql :
        (o : Option String)
        → (accepted u (World.mysql (MysqlStatement.create_user u p)) o ≡ o)
          ⊎ (accepted u (World.mysql (MysqlStatement.create_user u p)) o ≡ some p)
    created_mysql none = inr (ground (arith, eq_iff u u))
    created_mysql (some q) = inl (ground (arith, eq_iff u u))

    -- CreateUser gives the user this password, or leaves the one that it has.
    pub create_user-Agrees :
        (dc : Client) → Keeps (Agrees w u before p) (Client.create_user w dc u p)
    unfolding Client.create_user Postgres.create_user Postgres.add_user Mysql.create_user
    create_user-Agrees (postgres_client s) =
        let other = Agrees-Ignores sql refl in
        Keeps-bind _ _ (postgres_user_exists-Keeps w _ other s u) (λ exists.
          Keeps-bind _ _
            (Keeps-if exists _ _ (exec-Agrees s.db _ _ altered)
              (Keeps-bind _ _ (exec-Agrees s.db _ _ created) (λ _. exec-Keeps w _ s.db _ _ other)))
            (λ _. exec-Keeps w _ s.db _ _ other))
    create_user-Agrees (mysql_client s) = exec-Agrees s.db _ _ created_mysql

  -- A user that has no password yet, as far as the statements tell.
  abbrev pub NotGiven : Calls → Type 0
  NotGiven calls = given_password w u calls ≡ none

  module _ (p : String) where
    abbrev pub Has : Calls → Type 0
    Has calls = given_password w u calls ≡ some p

    executed-Has :
        (r : Result (Unit {0})) (s : Statement) (o : Option String) (calls : Calls)
        → accepted u s o ≡ some p
        → given_password w u calls ≡ executed r u s o
        → Post (λ _. Has) Anything (r, calls)
    executed-Has (ok _) s o calls a e = e ∙ a
    executed-Has (err e) s o calls a h = tt

    exec-Has :
        (h : Handle) (s : Statement) (prefix : String)
        → accepted u s none ≡ some p
        → Triple NotGiven (exec w h s prefix) (λ _. Has) Anything
    unfolding exec perform given_password
    exec-Has h s prefix sets =
        Triple-wrap (λ _. Has) Anything prefix _
          (record {
            run = λ calls n.
                executed-Has (w.reply calls (sql_exec h s)) s none (sql_exec h s ∷ calls) sets
                  (rw n refl);
          })

    Has-Ignores : Ignores Has sql
    Has-Ignores = given-Ignores (λ o. o ≡ some p) sql refl

    sets : (v : String) → (if v == v then some p else none) ≡ some p
    sets v = ground (arith, eq_iff v v)

    -- A CreateUser that returns has given the user this password.
    pub create_user-Has :
        (dc : Client) → Triple NotGiven (Client.create_user w dc u p) (λ _. Has) Anything
    unfolding Client.create_user Postgres.create_user Postgres.add_user Mysql.create_user
    create_user-Has (postgres_client s) =
        Triple-then NotGiven (λ _. Has) _ _
          (postgres_user_exists-Keeps w _ (given-Ignores (λ o. o ≡ none) sql refl) s u)
          (λ exists.
            Triple-bind (λ _. Has) (λ _. Has) Anything _ _
              (Triple-if (λ _. Has) Anything exists _ _ (exec-Has s.db _ _ (sets u))
                (Triple-bind (λ _. Has) (λ _. Has) Anything _ _ (exec-Has s.db _ _ (sets u))
                  (λ _. Triple-reached Has _ (exec-Keeps w Has s.db _ _ Has-Ignores))))
              (λ _. Triple-reached Has _ (exec-Keeps w Has s.db _ _ Has-Ignores)))
    create_user-Has (mysql_client s) = exec-Has s.db _ _ (sets u)
