-- ===== src/Controller/Delete/Gone.antt =====
-- That the resources that reconcileDelete cleans up are gone, in internal/controller/database_controller.go,
-- as the environment replied.
use mathlib.Core.Path.{subst}
use database_user_operator.Base.{
  ◌≡◌, refl, sym, Bool, true, false, none, some, String, List, [], ◌∷◌, ◌++◌, GoError, wrapped,
  Result, ok, err, ◌⊎◌, inl, inr, arith,
}
use database_user_operator.World
use database_user_operator.World.{World, Call}
use database_user_operator.Effects.{wrap, Calls, Effect, pure, fail, attempt, perform, ◌>>=◌}
use database_user_operator.Effects.Keeps.{Keeps-attempt}
use database_user_operator.Effects.Avoids.{Ignores, Kind, sql}
use database_user_operator.Effects.Avoids
use database_user_operator.Effects.Happened.{Happened}
use database_user_operator.Effects.Triples.{
  Post, Triple, Triple-bind, Triple-pure, Triple-attempt, Triple-both, Triple-adapt, Anything,
}
use database_user_operator.Errors.{as_resource_not_found, is_aws_resource_not_found_error}
use database_user_operator.Api.{Database}
use database_user_operator.Database.Client
use database_user_operator.Database.Client.{Client}
use database_user_operator.Database.Client.Handles.{handle_of}
use database_user_operator.Database.Client.Calls.{user_exists-Keeps, drop_user-Keeps}
use database_user_operator.Database.Client.Dropped.{
  NoDatabase, NoUser, database_exists-Triple, user_exists-Triple, drop_database-Triple,
  drop_user-Triple,
}
use database_user_operator.Secrets.Client.{AwsClient, new_aws_client, delete, deleted}
use database_user_operator.Secrets.Client.Calls.{deleted-calls}
use database_user_operator.Controller.Spec.{
  get_region, get_username_or_default, get_secret_name_or_default,
}
use database_user_operator.Controller.Delete.{
  or_default, errors_of, delete_errors, drop_found, drop_resources,
}
use database_user_operator.Controller.Delete.Calls.{drop_found-Keeps}

-- What holds if no error was collected.
abbrev pub WhenNone : (Calls → Type 0) → List GoError → Calls → Type 0
WhenNone Q errors calls = errors ≡ [] → Q calls

pub some_not_none : {A : Type 0} (a : A) (rest : List A) → a ∷ rest ≡ [] → ⊥
some_not_none a rest h = ground arith

-- AWS deleted the secret, or replied that there is none.
abbrev Gone : Result (Unit {0}) → Type 0
Gone (ok _) = Unit
Gone (err e) =
    (as_resource_not_found e ≡ true)
    ⊎ (is_aws_resource_not_found_error (some (wrapped "failed to delete secret" e)) ≡ true)

-- The AWS SDK resolved the region that is given, which may be none, to another.
abbrev pub ResolvedTo : World → (given region : String) → Call → Calls → Type 0
ResolvedTo w given region (World.load_config g) calls =
    (g ≡ given) × (w.reply calls (World.load_config g) ≡ ok region)
ResolvedTo w given region _ calls = ⊥

-- The call deletes this secret, at once, in a region to which the one that is given was resolved,
-- and it is gone.
abbrev pub NoSecret : World → (given name : String) → Call → Calls → Type 0
NoSecret w given name (World.delete_secret region n force window) calls =
    (n ≡ name)
    × (force ≡ true)
    × Happened (ResolvedTo w given region) calls
    × Gone (w.reply calls (World.delete_secret region n force window))
NoSecret w given name _ calls = ⊥

module _ (w : World) (db : Database) where
  abbrev pub secret_name : String
  secret_name = or_default db.status.actual_secret_name (get_secret_name_or_default db)

  abbrev pub username : String
  username = or_default db.status.actual_username (get_username_or_default db)

  abbrev pub SecretGone : Calls → Type 0
  SecretGone = Happened (NoSecret w (get_region db) secret_name)

  abbrev pub DatabaseGone : Client → Calls → Type 0
  DatabaseGone dc = Happened (NoDatabase w (handle_of dc) db.spec.database_name)

  abbrev pub UserGone : Client → Calls → Type 0
  UserGone dc = Happened (NoUser w (handle_of dc) username)

  told :
      (e : GoError) (calls : Calls)
      → delete_errors secret_name (deleted w (err e) calls).0 ≡ []
      → Gone (err e)
  unfolding deleted delete_errors pure fail
  told e calls h = ground arith

  -- A client for the region of the spec.
  abbrev pub Here : AwsClient → Calls → Type 0
  Here c = Happened (ResolvedTo w (get_region db) c.region)

  resolved-Here :
      (r : Result String) (calls : Calls)
      → w.reply calls (World.load_config (get_region db)) ≡ r
      → Post Here Anything (
          (do
            resolved ← wrap "failed to load AWS config" (λ s. (r, s))
            pure (record { region = resolved }))
            (World.load_config (get_region db) ∷ calls))
  unfolding wrap pure ◌>>=◌
  resolved-Here (ok region) calls e = inl (refl, e)
  resolved-Here (err f) calls e = tt

  pub new_aws_client-Here : Triple Anything (new_aws_client w (get_region db)) Here Anything
  unfolding new_aws_client perform wrap pure ◌>>=◌
  new_aws_client-Here = record { run = λ calls p. resolved-Here _ calls refl }

  abbrev deletion : AwsClient → Call
  deletion c = World.delete_secret c.region secret_name true none

  -- DeleteSecret, whose error is collected.
  pub delete_secret-Triple :
      (c : AwsClient)
      → Triple
          (Here c)
          (do
            outcome ← attempt (delete w c secret_name true)
            pure (delete_errors secret_name outcome))
          (WhenNone SecretGone)
          Anything
  unfolding delete deleted delete_errors errors_of attempt perform pure ◌>>=◌
  delete_secret-Triple c = record {
    run = λ calls p. finished calls p (w.reply calls (deletion c)) refl;
  }
    where
      finished :
          (calls : Calls)
          → Here c calls
          → (r : Result (Unit {0})) → w.reply calls (deletion c) ≡ r
          → WhenNone SecretGone
              (delete_errors secret_name (deleted w r (deletion c ∷ calls)).0)
              (deleted w r (deletion c ∷ calls)).1
      finished calls p (ok _) e = λ h. inl (refl, refl, p, subst Gone (sym e) tt)
      finished calls p (err f) e = λ h.
          subst SecretGone (sym (deleted-calls w (err f) (deletion c ∷ calls)))
            (inl (refl, refl, p, subst Gone (sym e) (told f (deletion c ∷ calls) h)))

module _ (w : World) (Q : Calls → Type 0) where
  dropped-WhenNone :
      (message : String) (r : Result (Unit {0})) (calls : Calls)
      → Post (λ _. Q) Anything (r, calls)
      → WhenNone Q (errors_of message r) calls
  unfolding errors_of
  dropped-WhenNone message (ok _) calls h = λ e. h
  dropped-WhenNone message (err f) calls h = λ e. absurd (some_not_none _ _ e)

  -- A resource that was not found, or that was dropped, is gone if no error was collected.
  drop_found-Triple :
      (check message : String) (r : Result Bool) (drop : Effect Unit)
      → Triple Anything drop (λ _. Q) Anything
      → Triple
          (λ calls. Post (λ b calls. b ≡ false → Q calls) Anything (r, calls))
          (drop_found w check message r drop)
          (WhenNone Q)
          Anything
  unfolding drop_found
  drop_found-Triple check message (err e) drop d =
      Triple-pure (WhenNone Q) Anything _ (λ calls h e. absurd (some_not_none _ _ e))
  drop_found-Triple check message (ok false) drop d =
      Triple-pure (WhenNone Q) Anything _ (λ calls h e. h refl)
  drop_found-Triple check message (ok true) drop d =
      Triple-bind (λ r calls. Post (λ _. Q) Anything (r, calls)) (WhenNone Q) Anything _ _
        (Triple-adapt _ Anything _ Anything _ (λ s p. tt) (Triple-attempt (λ _. Q) Anything drop d)
          (λ r s h. h) (λ s h. tt))
        (λ r. Triple-pure (WhenNone Q) Anything _ (dropped-WhenNone message r))

WhenNone-Ignores :
    (Q : Call → Calls → Type 0) (errors : List GoError) (k : Kind)
    → Ignores (WhenNone (Happened Q) errors) k
WhenNone-Ignores Q errors k = record { more = λ c calls e h n. inr (h n) }

pub none_first : (first second : List GoError) → first ++ second ≡ [] → (first ≡ []) × (second ≡ [])
none_first [] second h = (refl, h)
none_first (e ∷ first) second h = absurd (some_not_none _ _ h)

module _ (w : World) (db : Database) (dc : Client) where
  abbrev Both : List GoError → Calls → Type 0
  Both = WhenNone (λ calls. DatabaseGone w db dc calls × UserGone w db dc calls)

  -- What is known of the database is still known behind the work on the user.
  drop_found_user-Triple :
      (first : List GoError) (check message : String) (user : Result Bool)
      → Triple
          (λ calls.
            Post (λ b calls. b ≡ false → UserGone w db dc calls) Anything (user, calls)
            × WhenNone (DatabaseGone w db dc) first calls)
          (drop_found w check message user (Client.drop_user w dc (username w db)))
          (λ second calls.
            WhenNone (UserGone w db dc) second calls × WhenNone (DatabaseGone w db dc) first calls)
          Anything
  drop_found_user-Triple first check message user =
      Triple-both (WhenNone (UserGone w db dc)) _ (WhenNone (DatabaseGone w db dc) first) _
        (drop_found-Triple w (UserGone w db dc) check message user _
          (drop_user-Triple w dc (username w db)))
        (drop_found-Keeps w _ (WhenNone-Ignores _ first sql) (WhenNone-Ignores _ first Avoids.drop)
          check message user _
          (drop_user-Keeps w _ (WhenNone-Ignores _ first sql) (WhenNone-Ignores _ first Avoids.drop)
            dc (username w db)))

  user_exists-known :
      (first : List GoError)
      → Triple
          (WhenNone (DatabaseGone w db dc) first)
          (attempt (Client.user_exists w dc (username w db)))
          (λ r calls.
            Post (λ b calls. b ≡ false → UserGone w db dc calls) Anything (r, calls)
            × WhenNone (DatabaseGone w db dc) first calls)
          Anything
  user_exists-known first =
      Triple-adapt _ Anything _ Anything _ (λ calls h. (tt, h))
        (Triple-both _ Anything (WhenNone (DatabaseGone w db dc) first) _
          (Triple-attempt _ Anything _ (user_exists-Triple w dc (username w db)))
          (Keeps-attempt _
            (user_exists-Keeps w _ (WhenNone-Ignores _ first sql) dc (username w db))))
        (λ r calls h. h) (λ calls h. tt)

  -- Where no error was collected, both are gone.
  pub drop_resources-Triple : Triple Anything (drop_resources w dc db) Both Anything
  unfolding drop_resources
  drop_resources-Triple =
      Triple-bind
        (λ r calls. Post (λ b calls. b ≡ false → DatabaseGone w db dc calls) Anything (r, calls))
        Both Anything _ _
        (Triple-attempt _ Anything _ (database_exists-Triple w dc db.spec.database_name))
        (λ database.
          Triple-bind (WhenNone (DatabaseGone w db dc)) Both Anything _ _
            (drop_found-Triple w (DatabaseGone w db dc) _ _ database _
              (drop_database-Triple w dc db.spec.database_name))
            (λ first. Triple-bind _ Both Anything _ _ (user_exists-known first) (λ user.
              Triple-bind _ Both Anything _ _ (drop_found_user-Triple first _ _ user) (λ second.
                Triple-pure Both Anything _
                  (λ calls h e. let n = none_first first second e in (h.1 n.0, h.0 n.1))))))
