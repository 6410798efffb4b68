-- ===== src/Database/Client/Dropped.antt =====
-- That a database or a user is gone from a server, as the server replied: it was not found, or the
-- statement that drops it was accepted.
use database_user_operator.Base.{◌≡◌, refl, ap, ◌∙◌, ℕ, false, String, ok, ltb, arith}
use database_user_operator.World
use database_user_operator.World.{World, Call, Reply, Statement, Handle, sql_exec, sql_query}
use database_user_operator.Effects.{Calls, perform, pure, wrap}
use database_user_operator.Effects.Happened.{Happened, Made, perform-Made, Made-Happened}
use database_user_operator.Effects.Triples.{
  Triple, Triple-bind, Triple-pure, Triple-weaken, Triple-wrap, Triple-skip, Anything,
}
use database_user_operator.Database.Sql.{PostgresStatement, MysqlStatement}
use database_user_operator.Database.Client
use database_user_operator.Database.Client.{Client, postgres_client, mysql_client}
use database_user_operator.Database.Client.Connect.{exec}
use database_user_operator.Database.Client.Handles.{handle_of}
use database_user_operator.Database.Client.Postgres
use database_user_operator.Database.Client.Mysql

-- The server replied that the database does not exist, or accepted the statement that drops it.
abbrev pub NoDatabase : World → Handle → (name : String) → Call → Calls → Type 0
NoDatabase w db name (World.sql_query h (World.database_exists n)) calls =
    (h ≡ db) × (n ≡ name) × (w.reply calls (sql_query h (World.database_exists n)) ≡ ok false)
NoDatabase w db name (World.sql_query h (World.database_count n)) calls =
    (h ≡ db) × (n ≡ name) × (w.reply calls (sql_query h (World.database_count n)) ≡ ok 0)
NoDatabase w db name (World.sql_exec h (World.postgres (PostgresStatement.drop_database n))) calls =
    (h ≡ db)
    × (n ≡ name)
    × (w.reply calls (sql_exec h (World.postgres (PostgresStatement.drop_database n))) ≡ ok tt)
NoDatabase w db name (World.sql_exec h (World.mysql (MysqlStatement.drop_database n))) calls =
    (h ≡ db)
    × (n ≡ name)
    × (w.reply calls (sql_exec h (World.mysql (MysqlStatement.drop_database n))) ≡ ok tt)
NoDatabase w db name _ calls = ⊥

-- The same for a user.
abbrev pub NoUser : World → Handle → (name : String) → Call → Calls → Type 0
NoUser w db name (World.sql_query h (World.user_exists n)) calls =
    (h ≡ db) × (n ≡ name) × (w.reply calls (sql_query h (World.user_exists n)) ≡ ok false)
NoUser w db name (World.sql_query h (World.user_count n)) calls =
    (h ≡ db) × (n ≡ name) × (w.reply calls (sql_query h (World.user_count n)) ≡ ok 0)
NoUser w db name (World.sql_exec h (World.postgres (PostgresStatement.drop_user n))) calls =
    (h ≡ db)
    × (n ≡ name)
    × (w.reply calls (sql_exec h (World.postgres (PostgresStatement.drop_user n))) ≡ ok tt)
NoUser w db name (World.sql_exec h (World.mysql (MysqlStatement.drop_user n))) calls =
    (h ≡ db)
    × (n ≡ name)
    × (w.reply calls (sql_exec h (World.mysql (MysqlStatement.drop_user n))) ≡ ok tt)
NoUser w db name _ calls = ⊥

none_counted : (n : ℕ) → ltb 0 n ≡ false → n ≡ 0
none_counted n h = ground arith

module _ (w : World) where
  -- A call whose reply tells something, with the prefix of its error.
  performed-Happened :
      (Q : Call → Calls → Type 0) (c : Call) (prefix : String) (value : Reply c → Type 0)
      → ((a : Reply c) (calls : Calls) → w.reply calls c ≡ ok a → value a → Q c calls)
      → Triple Anything (wrap prefix (perform w c)) (λ a calls. value a → Happened Q calls) Anything
  performed-Happened Q c prefix value q =
      Triple-wrap (λ a calls. value a → Happened Q calls) Anything prefix (perform w c)
        (Triple-weaken (λ a. Made w c (ok a)) Anything (λ a calls. value a → Happened Q calls) _
          (perform-Made w c)
          (λ a made h v. Made-Happened w c Q (ok a) made (λ calls e. q a calls e v) h))

  -- A statement that was accepted.
  executed-Happened :
      (Q : Call → Calls → Type 0) (h : Handle) (s : Statement) (prefix : String)
      → ((calls : Calls) → w.reply calls (sql_exec h s) ≡ ok tt → Q (sql_exec h s) calls)
      → Triple Anything (exec w h s prefix) (λ _. Happened Q) Anything
  unfolding exec
  executed-Happened Q h s prefix q =
      Triple-weaken (λ _ calls. Unit {0} → Happened Q calls) Anything (λ _. Happened Q) _
        (performed-Happened Q (sql_exec h s) prefix (λ _. Unit {0}) (λ a calls e v. q calls e))
        (λ a s f. f tt)

  module _ (dc : Client) (name : String) where
    abbrev Absent : Calls → Type 0
    Absent = Happened (NoDatabase w (handle_of dc) name)

    abbrev AbsentUser : Calls → Type 0
    AbsentUser = Happened (NoUser w (handle_of dc) name)

  counted-Triple :
      (Q : Call → Calls → Type 0) (count : ℕ)
      → Triple
          (λ calls. count ≡ 0 → Happened Q calls)
          (pure (ltb 0 count))
          (λ b calls. b ≡ false → Happened Q calls)
          Anything
  counted-Triple Q count =
      Triple-pure (λ b calls. b ≡ false → Happened Q calls) Anything (ltb 0 count)
        (λ calls h e. h (none_counted count e))

  -- A database that is not found is gone.
  pub database_exists-Triple :
      (dc : Client) (name : String)
      → Triple Anything
          (Client.database_exists w dc name)
          (λ b calls. b ≡ false → Absent dc name calls)
          Anything
  unfolding Client.database_exists Postgres.database_exists Mysql.database_exists
  database_exists-Triple (postgres_client s) name =
      performed-Happened _ (sql_query s.db (World.database_exists name)) _ (λ b. b ≡ false)
        (λ b calls e v. (refl, refl, e ∙ ap ok v))
  database_exists-Triple (mysql_client s) name =
      Triple-bind (λ n calls. n ≡ 0 → Absent (mysql_client s) name calls) _ Anything _ _
        (performed-Happened _ (sql_query s.db (World.database_count name)) _ (λ n. n ≡ 0)
          (λ n calls e v. (refl, refl, e ∙ ap ok v)))
        (counted-Triple _)

  pub user_exists-Triple :
      (dc : Client) (name : String)
      → Triple Anything
          (Client.user_exists w dc name)
          (λ b calls. b ≡ false → AbsentUser dc name calls)
          Anything
  unfolding Client.user_exists Postgres.user_exists Mysql.user_exists
  user_exists-Triple (postgres_client s) name =
      performed-Happened _ (sql_query s.db (World.user_exists name)) _ (λ b. b ≡ false)
        (λ b calls e v. (refl, refl, e ∙ ap ok v))
  user_exists-Triple (mysql_client s) name =
      Triple-bind (λ n calls. n ≡ 0 → AbsentUser (mysql_client s) name calls) _ Anything _ _
        (performed-Happened _ (sql_query s.db (World.user_count name)) _ (λ n. n ≡ 0)
          (λ n calls e v. (refl, refl, e ∙ ap ok v)))
        (counted-Triple _)

  -- A database that was dropped without an error is gone.
  pub drop_database-Triple :
      (dc : Client) (name : String)
      → Triple Anything (Client.drop_database w dc name) (λ _. Absent dc name) Anything
  unfolding Client.drop_database Postgres.drop_database Mysql.drop_database
  drop_database-Triple (postgres_client s) name =
      Triple-skip (λ _. Absent (postgres_client s) name) _ _
        (λ _. executed-Happened _ s.db _ _ (λ calls e. (refl, refl, e)))
  drop_database-Triple (mysql_client s) name =
      executed-Happened _ s.db _ _ (λ calls e. (refl, refl, e))

  pub drop_user-Triple :
      (dc : Client) (name : String)
      → Triple Anything (Client.drop_user w dc name) (λ _. AbsentUser dc name) Anything
  unfolding Client.drop_user Postgres.drop_user Mysql.drop_user
  drop_user-Triple (postgres_client s) name =
      Triple-skip (λ _. AbsentUser (postgres_client s) name) _ _
        (λ _. executed-Happened _ s.db _ _ (λ calls e. (refl, refl, e)))
  drop_user-Triple (mysql_client s) name = executed-Happened _ s.db _ _ (λ calls e. (refl, refl, e))
