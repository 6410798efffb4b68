-- ===== src/Database/Client/Handles.antt =====
-- The handles of database servers that are open, as a reading of the calls that were made, and the
-- methods of the clients that open and close them.
use database_user_operator.Base.{
  ◌≡◌, refl, ap, ◌∙◌, Bool, true, false, ◌&&◌, ◌==◌, String, List, [], ◌∷◌, if◌then◌else◌, Result,
  ok, err, arith, eq_iff,
}
use database_user_operator.World
use database_user_operator.World.{
  World, Driver, postgres_driver, mysql_driver, Handle, Call, Statement, sql_open, sql_close,
  sql_ping,
}
use database_user_operator.Effects.{Calls, Effect, lift, perform, attempt, pure, fail, wrap, ◌>>=◌}
use database_user_operator.Effects.Keeps.{Keeps-lift, keeps_rules}
use database_user_operator.Effects.Avoids.{Ignores, Kind, kind, session}
use database_user_operator.Effects.Triples.{
  Post, Triple, Triple-pure, Triple-fail, Triple-if, Triple-bind, Triple-Keeps,
}
use database_user_operator.Database.Connection.{ConnectionInfo}
use database_user_operator.Database.Client
use database_user_operator.Database.Client.{Client, postgres_client, mysql_client}
use database_user_operator.Database.Client.Postgres
use database_user_operator.Database.Client.Mysql
use database_user_operator.Database.Client.Connect.{Session, pinged, connect}

abbrev same_driver : Driver → Driver → Bool
same_driver postgres_driver postgres_driver = true
same_driver mysql_driver mysql_driver = true
same_driver _ _ = false

abbrev same_handle : Handle → Handle → Bool
same_handle a b = same_driver a.driver b.driver && (a.dsn == b.dsn)

same_driver_refl : (d : Driver) → same_driver d d ≡ true
same_driver_refl postgres_driver = refl
same_driver_refl mysql_driver = refl

-- One handle is closed.
abbrev pub close_one : Handle → List Handle → List Handle
close_one h [] = []
close_one h (x ∷ xs) = let rest = close_one h xs in if same_handle x h then xs else x ∷ rest

close_one-head : (h : Handle) (xs : List Handle) → close_one h (h ∷ xs) ≡ xs
close_one-head h xs = ground (arith, same_driver_refl h.driver, eq_iff h.dsn h.dsn)

-- A handle that sql.Open returned is open until it is closed.
abbrev opened : Result (Unit {0}) → Handle → List Handle → List Handle
opened (ok _) h xs = h ∷ xs
opened (err e) h xs = xs

unfoldable pub open_handles : World → Calls → List Handle
open_handles w [] = []
open_handles w (World.sql_open h ∷ calls) =
    opened (w.reply calls (sql_open h)) h (open_handles w calls)
open_handles w (World.sql_close h ∷ calls) = close_one h (open_handles w calls)
open_handles w (c ∷ calls) = open_handles w calls

-- Exactly these handles are open.
abbrev pub Open : World → List Handle → Calls → Type 0
Open w handles calls = open_handles w calls ≡ handles

abbrev is_session : Kind → Bool
is_session session = true
is_session _ = false

abbrev pub handle_of : Client → Handle
handle_of (postgres_client s) = s.db
handle_of (mysql_client s) = s.db

module _ (w : World) where
  other-open :
      (c : Call) (calls : Calls)
      → is_session (kind c) ≡ false
      → open_handles w (c ∷ calls) ≡ open_handles w calls
  unfolding open_handles
  other-open (World.sql_open h) calls e = cc
  other-open (World.sql_close h) calls e = cc
  other-open _ calls e = refl

  pub Open-Ignores :
      (handles : List Handle) (k : Kind) → is_session k ≡ false → Ignores (Open w handles) k
  Open-Ignores handles k h = record {
    more = λ c calls e p. other-open c calls (ap is_session e ∙ h) ∙ p;
  }

  -- The handle of a client that was made is open, and no other than before; a client that could not be
  -- made leaves none open.
  connect-Open :
      (handles : List Handle) (db : Handle) (info : ConnectionInfo)
      → Triple (Open w handles) (connect w db info) (λ s. Open w (s.db ∷ handles)) (Open w handles)
  unfolding connect pinged wrap attempt perform pure fail open_handles ◌>>=◌
  connect-Open handles db info = record {
    run = λ calls p. ground (arith, close_one-head db handles);
  }

  module _ (handles : List Handle) where
    abbrev Before : Calls → Type 0
    Before = Open w handles

    -- A session, or a client, of which the handle was opened.
    abbrev OpenSession : Session → Calls → Type 0
    OpenSession s = Open w (s.db ∷ handles)

    abbrev pub OpenClient : Client → Calls → Type 0
    OpenClient dc = Open w (handle_of dc ∷ handles)

    lift-Open : {A : Type 0} → (r : Result A) → Triple Before (lift r) (λ _. Before) Before
    lift-Open r = Triple-Keeps Before (lift r) (Keeps-lift r)

    postgres-Open : (s : String) → Triple Before (Postgres.new_session w s) OpenSession Before
    unfolding Postgres.new_session
    postgres-Open s =
        Triple-bind (λ _. Before) OpenSession Before _ _ (lift-Open _)
          (λ info. connect-Open handles _ info)

    mysql-Open : (s : String) → Triple Before (Mysql.new_session w s) OpenSession Before
    unfolding Mysql.new_session Mysql.dsn_of_url
    mysql-Open s =
        Triple-bind (λ _. Before) OpenSession Before _ _ (lift-Open _)
          (λ info.
            Triple-bind (λ _. Before) OpenSession Before _ _
              (Triple-Keeps Before _ (search keeps_rules depth 8))
              (λ dsn. connect-Open handles _ info))

    client-Open :
        (m : Effect Session) (f : Session → Client)
        → ((s : Session) → handle_of (f s) ≡ s.db)
        → Triple Before m OpenSession Before
        → Triple Before (do s ← m; pure (f s)) OpenClient Before
    client-Open m f same h =
        Triple-bind OpenSession OpenClient Before m _ h
          (λ s. Triple-pure OpenClient Before (f s) (λ calls p. rw (same s) p))

    pub new_client-Open :
        (engine s : String) → Triple Before (Client.new_client w engine s) OpenClient Before
    unfolding Client.new_client
    new_client-Open engine s =
        Triple-if OpenClient Before _ _ _
          (client-Open _ postgres_client (λ s. refl) (postgres-Open s))
          (Triple-if OpenClient Before _ _ _ (client-Open _ mysql_client (λ s. refl) (mysql-Open s))
            (Triple-fail OpenClient Before _ (λ calls p. p)))

    -- Closing the handle that was opened last leaves those that were open before.
    pub close-Open :
        (h : Handle) (calls : Calls)
        → Open w (h ∷ handles) calls
        → Before (perform w (sql_close h) calls).1
    unfolding perform open_handles
    close-Open h calls p = rw p (close_one-head h handles)

    pub close_client-Open :
        (dc : Client) (calls : Calls) → OpenClient dc calls → Before (Client.close w dc calls).1
    unfolding Client.close
    close_client-Open (postgres_client s) = close-Open s.db
    close_client-Open (mysql_client s) = close-Open s.db

    opened-Post :
        (h : Handle) (r : Result (Unit {0})) (calls : Calls)
        → open_handles w calls ≡ opened r h handles
        → Post (λ _. Open w (h ∷ handles)) Before (r, calls)
    opened-Post h (ok _) calls p = p
    opened-Post h (err e) calls p = p

    -- sql.Open by itself.
    pub opening-Open :
        (h : Handle)
        → Triple {A = Unit {0}} Before (perform w (sql_open h)) (λ _. Open w (h ∷ handles)) Before
    unfolding perform open_handles
    opening-Open h = record { run = λ calls p. opened-Post h (w.reply calls (sql_open h)) _ (rw p) }
