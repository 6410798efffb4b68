-- ===== src/Secrets/Json/Fields.antt =====
-- The keys under which toJSONDefault puts the fields of a secret are those under which they are
-- read.
use database_user_operator.Base.{
  ◌≡◌, ◌≢◌, refl, ap, ◌∙◌, sym, Bool, true, false, not, ◌&&◌, String, ◌<>◌, codes, codes-<>, last,
  last-append, ◌==◌, eq-false_of_ne, arith, if◌then◌else◌, Dict, lookup, lookup-insert, ℕ, insert,
  [], ◌∷◌,
}
use database_user_operator.World.{Value, text, number, DatabaseSecret}
use database_user_operator.Secrets.Json.{is_postgres, url_field_name, secret_map, from_fields}

-- The key of the URL ends in the letter L.
named-last :
    (b : Bool) (upper : String) → last (codes (if b then "POSTGRES_URL" else upper <> "_URL")) ≡ 76
unfolding last codes
named-last true upper = refl
named-last false upper = ap last (codes-<> upper "_URL") ∙ last-append (codes upper) _ 95

-- No key that ends in another letter is that of the URL.
other_key :
    (engine key : String) (n : ℕ)
    → last (codes key) ≡ n
    → n ≢ 76
    → (url_field_name engine == key) ≡ false
unfolding url_field_name
other_key engine key n e h =
    eq-false_of_ne (url_field_name engine) key
      (λ same. h (sym e ∙ ap (λ s. last (codes s)) (sym same) ∙ named-last (is_postgres engine) _))

module _ (s : DatabaseSecret) where
  abbrev fields : Dict Value
  fields =
      ("DB_HOST", text s.db_host)
      ∷ ("DB_PORT", number s.db_port)
      ∷ ("DB_NAME", text s.db_name)
      ∷ ("DB_USERNAME", text s.db_username)
      ∷ ("DB_PASSWORD", text s.db_password)
      ∷ []

  insert_if-lookup :
      (b : Bool) (key : String) (n : ℕ)
      → last (codes key) ≡ n
      → n ≢ 76
      → lookup key
          (if b then insert (url_field_name s.engine) (text s.database_url) fields else fields)
        ≡ lookup key fields
  insert_if-lookup true key n e h =
      lookup-insert fields (url_field_name s.engine) (text s.database_url) key
      ∙ rw (other_key s.engine key n e h) refl
  insert_if-lookup false key n e h = refl

  secret_map-lookup :
      (key : String) (n : ℕ)
      → last (codes key) ≡ n
      → n ≢ 76
      → lookup key (secret_map s) ≡ lookup key fields
  unfolding secret_map
  secret_map-lookup key n e h =
      insert_if-lookup (not (s.database_url == "") && not (s.engine == "")) key n e h

  -- What is read behind the keys of the fields is what was put there, whatever the engine is called;
  -- the URL and the engine are not read.
  pub from_fields-secret_map :
      from_fields (secret_map s) ≡ record s { database_url = ""; engine = "" }
  unfolding from_fields last codes lookup
  from_fields-secret_map =
      rw
        (
          secret_map-lookup "DB_HOST" 84 refl (λ e. absurd (omega arith)),
          secret_map-lookup "DB_PORT" 84 refl (λ e. absurd (omega arith)),
          secret_map-lookup "DB_NAME" 69 refl (λ e. absurd (omega arith)),
          secret_map-lookup "DB_USERNAME" 69 refl (λ e. absurd (omega arith)),
          secret_map-lookup "DB_PASSWORD" 68 refl (λ e. absurd (omega arith)),
        )
        refl
