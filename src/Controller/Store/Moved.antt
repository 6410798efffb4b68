-- ===== src/Controller/Store/Moved.antt =====
-- The deletion of the secret in its old region, in storeCredentialsInAWS of
-- internal/controller/database_controller.go, and the secret in the new region.
use mathlib.Core.Path.{subst}
use database_user_operator.Base.{
  ◌≡◌, ◌≢◌, refl, sym, ◌∙◌, ◌⊎◌, Bool, true, false, not, ◌&&◌, ◌==◌, eq_iff, eq-false_of_ne, none,
  String, Result, ok, err, arith, Option, ◌∷◌,
}
use database_user_operator.World.{World, load_config, delete_secret}
use database_user_operator.Effects.{Calls, attempt, pure, perform, wrap, ◌>>=◌}
use database_user_operator.Effects.Keeps.{Keeps, Keeps-bind, Keeps-pure, Keeps-attempt, Keeps-if}
use database_user_operator.Effects.Avoids.{Ignores}
use database_user_operator.Effects.Avoids
use database_user_operator.Effects.Triples.{Post, Triple, Triple-Keeps, Triple-fact, Keeps-before}
use database_user_operator.Api.{Database}
use database_user_operator.Secrets.Client.{AwsClient, new_aws_client, delete}
use database_user_operator.Secrets.Client.Calls.{deleted-calls}
use database_user_operator.Secrets.Client.Stored.{stored_value, same, stored-Ignores}
use database_user_operator.Controller.Spec.{get_region}
use database_user_operator.Controller.Store.{region_changed, moves, delete_in_old_region}

-- LoadDefaultConfig with a region that is given returns a configuration for this region.
abbrev pub Resolves : World → Type 0
Resolves w =
    (calls : Calls) (region resolved : String)
    → region ≢ ""
    → w.reply calls (load_config region) ≡ ok resolved
    → resolved ≡ region

-- The status names no region or the one of the spec, or the spec names a region.
abbrev pub Placed : World → Database → Type 0
Placed w db = (moves db ≡ false) ⊎ (Resolves w × (get_region db ≢ ""))

module _ (w : World) (P : Calls → Type 0) (h : Ignores P Avoids.secret) where
  resolved-Post :
      (region : String) (r : Result String) (calls : Calls)
      → ((resolved : String) → r ≡ ok resolved → resolved ≡ region)
      → P (load_config region ∷ calls)
      → Post
          (λ (c : AwsClient) s. (c.region ≡ region) × P s)
          P
          ((do
            resolved ← wrap "failed to load AWS config" (λ s. (r, s))
            pure (record { region = resolved }))
            (load_config region ∷ calls))
  unfolding wrap pure ◌>>=◌
  resolved-Post region (ok resolved) calls e p = (e resolved refl, p)
  resolved-Post region (err f) calls e p = p

  -- A client for a region that is given is one for this region.
  pub new_aws_client-resolved :
      (region : String)
      → Resolves w
      → region ≢ ""
      → Triple P (new_aws_client w region) (λ c s. (c.region ≡ region) × P s) P
  unfolding new_aws_client perform wrap pure ◌>>=◌
  new_aws_client-resolved region resolves given = record {
    run = λ calls p.
        resolved-Post region (w.reply calls (load_config region)) calls
          (λ resolved e. resolves calls region resolved given e)
          (h.more (load_config region) calls refl p);
  }

module _ (w : World) (region name : String) (Q : Option String → Type 0) where
  abbrev Has : Calls → Type 0
  Has calls = Q (stored_value w region name calls)

  other_region : (old n : String) → old ≢ region → same region name old n ≡ false
  other_region old n h = rw (eq-false_of_ne old region h) refl

  delete-elsewhere :
      (c : AwsClient) (n : String) → c.region ≢ region → Keeps Has (delete w c n true)
  unfolding delete attempt perform stored_value ◌>>=◌
  delete-elsewhere c n other = record {
    after = λ calls q.
        subst Has (sym (deleted-calls w (w.reply calls (delete_secret c.region n true none)) _))
          (rw (other_region c.region n other) q);
  }

  -- The deletion in another region, which is given.
  pub delete_in_old_region-elsewhere :
      (changed : Bool) (arn old n : String)
      → Resolves w
      → old ≢ ""
      → old ≢ region
      → Keeps Has (delete_in_old_region w changed arn old n)
  unfolding delete_in_old_region
  delete_in_old_region-elsewhere changed arn old n resolves given other =
      Keeps-if _ _ _
        (Keeps-bind _ _
          (Keeps-attempt _ (
            Keeps-before (λ (c : AwsClient) s. (c.region ≡ old) × Has s) _ _
              (new_aws_client-resolved w Has (stored-Ignores w region name Q Avoids.secret refl) old
                resolves given)
              (λ c.
                Triple-fact (λ _. Has) Has (c.region ≡ old) _
                  (λ e. Triple-Keeps Has _ (delete-elsewhere c n (λ k. other (sym e ∙ k)))))))
          (λ _. Keeps-pure tt))
        (Keeps-pure tt)

neither : (a b : Bool) → (not a && not b) ≡ true → (a ≡ false) × (b ≡ false)
neither a b h = ground arith

unequal : (s t : String) → (s == t) ≡ false → s ≢ t
unequal s t h = ground (arith, eq_iff s t)

-- If the secret moves, the status names a region, another than that of the spec.
pub moves-old :
    (db : Database)
    → moves db ≡ true
    → (db.status.secret_region ≢ "") × (db.status.secret_region ≢ get_region db)
unfolding moves region_changed
moves-old db h =
    let (named, other) = neither _ _ h in
    (
      unequal db.status.secret_region "" named,
      unequal db.status.secret_region (get_region db) other,
    )
