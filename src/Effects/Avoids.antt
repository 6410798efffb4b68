-- ===== src/Effects/Avoids.antt =====
-- Calls that an action never makes, whatever the environment replies, by the kinds of calls.
use database_user_operator.Base.{◌≡◌, refl, ap, ◌∙◌, Bool, true, false, [], ◌∷◌}
use database_user_operator.World
use database_user_operator.World.{World, Call, Statement}
use database_user_operator.Effects.{Calls, perform}
use database_user_operator.Effects.Keeps.{Keeps, keeps_rules}
use database_user_operator.Database.Sql.{PostgresStatement, MysqlStatement}

-- No call among these is bad.
abbrev pub Avoids : (Call → Bool) → Calls → Type 0
Avoids bad [] = Unit
Avoids bad (c ∷ calls) = (bad c ≡ false) × Avoids bad calls

-- Drops a database or a user.
abbrev pub is_drop : Statement → Bool
is_drop (World.postgres (PostgresStatement.drop_database _)) = true
is_drop (World.postgres (PostgresStatement.drop_user _)) = true
is_drop (World.mysql (MysqlStatement.drop_database _)) = true
is_drop (World.mysql (MysqlStatement.drop_user _)) = true
is_drop _ = false

-- Gives a user a password.
abbrev pub sets_password : Statement → Bool
sets_password (World.postgres (PostgresStatement.create_user _ _)) = true
sets_password (World.postgres (PostgresStatement.alter_user _ _)) = true
sets_password (World.mysql (MysqlStatement.create_user _ _)) = true
sets_password (World.mysql (MysqlStatement.alter_user _ _)) = true
sets_password _ = false

pub data Kind : Type 0 where
  -- a read of the Kubernetes API, an event, a write of the status, random bytes
  kube : Kind
  -- a write of the object itself, which may add or remove its finalizer
  object : Kind
  -- a handle of a database server is opened or closed
  session : Kind
  -- a ping, a query, or a statement of neither of the two kinds below
  sql : Kind
  password : Kind
  drop : Kind
  -- a call to AWS: a value is written, a secret is deleted, or anything else
  write : Kind
  delete : Kind
  secret : Kind

abbrev kind_of_statement : Bool → Bool → Kind
kind_of_statement true _ = drop
kind_of_statement false true = password
kind_of_statement false false = sql

abbrev pub kind : Call → Kind
kind (Call.get_database _ _) = kube
kind (Call.get_kube_secret _ _) = kube
kind (Call.update_object _) = object
kind (Call.update_status _) = kube
kind (Call.record_event _ _ _) = kube
kind (Call.read_random _) = kube
kind (Call.sql_open _) = session
kind (Call.sql_ping _) = sql
kind (Call.sql_close _) = session
kind (Call.sql_exec _ s) = kind_of_statement (is_drop s) (sets_password s)
kind (Call.sql_query _ _) = sql
kind (Call.create_secret _ _) = write
kind (Call.update_secret _ _) = write
kind (Call.delete_secret _ _ _ _) = delete
kind _ = secret

-- Calls are bad by their kind.
abbrev pub by_kind : (Kind → Bool) → Call → Bool
by_kind bad c = bad (kind c)

-- A property of the calls that were made is not touched by more calls of a kind.
pub record Ignores (P : Calls → Type 0) (k : Kind) : Type 0 where
  pub more : (c : Call) (calls : Calls) → kind c ≡ k → P calls → P (c ∷ calls)

pub Keeps-perform :
    {P : Calls → Type 0} (w : World) (c : Call) → Ignores P (kind c) → Keeps P (perform w c)
unfolding perform
Keeps-perform w c h = record { after = λ calls p. h.more c calls refl p }

-- No call of a kind that is not bad makes a bad call.
pub Ignores-Avoids :
    (bad : Kind → Bool) (k : Kind) → bad k ≡ false → Ignores (Avoids (by_kind bad)) k
Ignores-Avoids bad k h = record { more = λ c calls e a. (ap bad e ∙ h, a) }

pub ruleset avoids_rules = (keeps_rules, Ignores-Avoids)
