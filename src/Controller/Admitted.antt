-- ===== src/Controller/Admitted.antt =====
-- What the controller of internal/controller/database_controller.go may rely on, for an object whose
-- spec passes the validation markers of api/v1alpha1/database_types.go.
use mathlib.Core.Path.{subst}
use database_user_operator.Base.{
  ◌≡◌, refl, sym, ◌∙◌, ◌⊎◌, inl, inr, ℕ, Bool, true, false, not, ◌&&◌, ◌||◌, Option, none, some,
  String, List, [], ◌∷◌, ◌==◌, leb, if◌then◌else◌, codes, length_text, eq_iff, arith, Result, ok,
  ◌≤◌,
}
use database_user_operator.World.{World}
use database_user_operator.Effects.{Calls, pure, ◌>>=◌}
use database_user_operator.Api.{AwsSecretReference, AwsSecretsManagerConfig, Database}
use database_user_operator.Api.Schema.{
  engines, regions, in_enum, is_word, all_word, matches_pattern, admits_database_name,
  admits_username, admits_config, admits_reference, admits,
}
use database_user_operator.Database.Client
use database_user_operator.Database.Client.{Client, is_engine, postgres_client, mysql_client}
use database_user_operator.Database.Client.Postgres
use database_user_operator.Database.Client.Mysql
use database_user_operator.Database.Quote.Word.{Verbatim, all_word-Verbatim}
use database_user_operator.Secrets.Region.{is_listed, validate_region, valid_aws_regions}
use database_user_operator.Controller.Spec.{
  get_username_or_default, config_region, source_region, get_region,
}

-- A property of every value of an enum.
abbrev Each : (String → Type 0) → List String → Type 0
Each P [] = Unit
Each P (v ∷ values) = P v × Each P values

no_value : false ≡ true → ⊥
no_value h = ground arith

first_or_later : (b c : Bool) → (if b then true else c) ≡ true → (b ≡ true) ⊎ (c ≡ true)
first_or_later b c h = ground arith

in_enum-Each :
    (P : String → Type 0) (value : String) (values : List String)
    → Each P values
    → in_enum value values ≡ true
    → P value
unfolding in_enum
in_enum-Each P value [] each h = absurd (no_value h)
in_enum-Each P value (v ∷ values) each h =
    elim (first_or_later (v == value) (in_enum value values) h) [
      | inl hit ↦ subst P ((eq_iff v value).0 hit) each.0
      | inr later ↦ in_enum-Each P value values each.1 later
    ]

-- The markers name the regions of ValidAWSRegions.
in_enum-is_listed :
    (region : String) (values : List String) → in_enum region values ≡ is_listed region values
unfolding in_enum is_listed
in_enum-is_listed region [] = refl
in_enum-is_listed region (v ∷ values) = rw (in_enum-is_listed region values) refl

listed_ok :
    (b c : Bool) (e : Result (Unit {0}))
    → c ≡ true
    → (if b then ok tt else if c then ok tt else e) ≡ ok tt
listed_ok b c e k = ground arith

validate_region-admitted :
    (region : String) → in_enum region regions ≡ true → validate_region region ≡ ok tt
unfolding validate_region
validate_region-admitted region h =
    listed_ok (region == "") (is_listed region valid_aws_regions) _
      (sym (in_enum-is_listed region regions) ∙ h)

config_region-admitted :
    (c : Option AwsSecretsManagerConfig)
    → admits_config c ≡ true
    → validate_region (config_region c) ≡ ok tt
unfolding config_region validate_region admits_config
config_region-admitted none h = refl
config_region-admitted (some c) h = validate_region-admitted c.region h

source_region-admitted :
    (r : Option AwsSecretReference)
    → admits_reference r ≡ true
    → validate_region (source_region r) ≡ ok tt
unfolding source_region validate_region admits_reference
source_region-admitted none h = refl
source_region-admitted (some r) h = validate_region-admitted r.region h

first_given :
    (P : String → Type 0) (a b : Bool) (s t : String)
    → P s
    → P t
    → P ""
    → P (if not a then s else if not b then t else "")
first_given P true true s t p q r = r
first_given P true false s t p q r = q
first_given P false b s t p q r = p

get_region-admitted :
    (db : Database)
    → admits_config db.spec.aws_secrets_manager ≡ true
    → admits_reference db.spec.connection_string_aws_secret_ref ≡ true
    → validate_region (get_region db) ≡ ok tt
unfolding get_region validate_region
get_region-admitted db c r =
    first_given (λ region. validate_region region ≡ ok tt)
      (config_region db.spec.aws_secrets_manager == "")
      (source_region db.spec.connection_string_aws_secret_ref == "")
      (config_region db.spec.aws_secrets_manager)
      (source_region db.spec.connection_string_aws_secret_ref)
      (config_region-admitted db.spec.aws_secrets_manager c)
      (source_region-admitted db.spec.connection_string_aws_secret_ref r) refl

-- The name can be quoted as it stands, and PostgreSQL does not shorten it.
abbrev pub IsName : String → Type 0
IsName s = Verbatim s × (length_text s ≤ 63)

-- NewClient chooses an implementation for the engine.
abbrev pub Served : World → String → Type 0
Served w engine =
    (connection_string : String) (calls : Calls)
    → (Client.new_client w engine connection_string calls
        ≡ (do s ← Postgres.new_session w connection_string; pure (postgres_client s)) calls)
      ⊎ (Client.new_client w engine connection_string calls
          ≡ (do s ← Mysql.new_session w connection_string; pure (mysql_client s)) calls)

engines-Served : (w : World) → Each (Served w) engines
unfolding Client.new_client is_engine
engines-Served w =
    (λ s calls. inl refl, (λ s calls. inl refl, (λ s calls. inr refl, (λ s calls. inr refl, tt))))

both_true : (a b : Bool) → (a && b) ≡ true → (a ≡ true) × (b ≡ true)
both_true a b h = ground arith

matches_pattern-all_word : (s : List ℕ) → matches_pattern s ≡ true → all_word s ≡ true
unfolding matches_pattern all_word is_word
matches_pattern-all_word [] h = refl
matches_pattern-all_word (c ∷ s) h = ground arith

at_most_63 : (n : ℕ) → leb n 63 ≡ true → n ≤ 63
at_most_63 n h = ground arith

IsName-matching :
    (s : String) → leb (length_text s) 63 && matches_pattern (codes s) ≡ true → IsName s
IsName-matching s h =
    let parts = both_true _ _ h in
    (all_word-Verbatim s (matches_pattern-all_word (codes s) parts.1), at_most_63 _ parts.0)

named-IsName : (s : String) → admits_database_name s ≡ true → IsName s
unfolding admits_database_name
named-IsName s h = IsName-matching s (both_true _ _ h).1

user-IsName :
    (b : Bool) (s name : String)
    → (b || (leb (length_text s) 63 && matches_pattern (codes s))) ≡ true
    → IsName name
    → IsName (if not b then s else name)
user-IsName true s name h n = n
user-IsName false s name h n = IsName-matching s h

-- A spec that the API server admits names a region that is accepted or none, and an engine that has
-- a client; the names of the database and of its user have at most 63 characters, and each of the
-- quoting functions puts them between two marks as they are.
pub admits-Served :
    (w : World) (db : Database)
    → admits db.spec ≡ true
    → (validate_region (get_region db) ≡ ok tt)
      × Served w db.spec.engine
      × IsName db.spec.database_name
      × IsName (get_username_or_default db)
unfolding admits admits_username get_username_or_default
admits-Served w db h =
    let engine = both_true _ _ h in
    let name = both_true _ _ engine.1 in
    let user = both_true _ _ name.1 in
    let region = both_true _ _ user.1 in
    let named = named-IsName db.spec.database_name name.0 in
    (
      get_region-admitted db region.0 region.1,
      in_enum-Each (Served w) db.spec.engine engines (engines-Served w) engine.0,
      named,
      user-IsName (db.spec.username == "") db.spec.username db.spec.database_name user.0 named,
    )
