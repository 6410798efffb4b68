-- ===== src/Secrets/Client/ReadBack.antt =====
-- GetSecret behind CreateSecret and UpdateSecret.
use database_user_operator.Base.{
  ◌≡◌, ◌≢◌, refl, ap, ◌∙◌, sym, some, String, ok, Dict, eq-false_of_ne,
}
use database_user_operator.World.{World, DatabaseSecret, get_secret_value}
use database_user_operator.Effects.{Calls, lift, wrap, pure, perform, ◌>>=◌}
use database_user_operator.Effects.Triples.{Triple-ok}
use database_user_operator.Secrets.Json.{secret_map, from_fields, to_json, to_json_default}
use database_user_operator.Secrets.Json.Fields.{from_fields-secret_map}
use database_user_operator.Secrets.Client.{AwsClient, get_secret, to_string}
use database_user_operator.Secrets.Client.Default.{create_secret, update_secret}
use database_user_operator.Secrets.Client.Stored.{stored_value, Stored}
use database_user_operator.Secrets.Client.Writes.{create_secret-Triple, update_secret-Triple}

module _ (w : World) (c : AwsClient) (name : String) where
  -- A secret with a password is returned as it is read.
  get_secret-reads :
      (json : String) (s : DatabaseSecret) (calls : Calls)
      → w.reply calls (get_secret_value c.region name) ≡ ok (some json)
      → w.unmarshal_secret json ≡ ok s
      → s.db_password ≢ ""
      → (get_secret w c name calls).0 ≡ ok s
  unfolding get_secret to_string wrap lift pure perform ◌>>=◌
  get_secret-reads json s calls reply reads given =
      rw reply (rw reads (rw (eq-false_of_ne s.db_password "" given) refl))

  default_json : (value : DatabaseSecret) → to_json w value ≡ w.marshal (secret_map value)
  unfolding to_json to_json_default
  default_json value = refl

  -- The credentials, without the two fields that are not read.
  abbrev pub credentials : DatabaseSecret → DatabaseSecret
  credentials value = record value { database_url = ""; engine = "" }

  -- json.Unmarshal reads the fields by their keys from what json.Marshal made of the map.
  abbrev pub ReadsBack : DatabaseSecret → Type 0
  ReadsBack value =
      (json : String)
      → w.marshal (secret_map value) ≡ ok json
      → w.unmarshal_secret json ≡ ok (from_fields (secret_map value))

  pub stored-get_secret :
      (value : DatabaseSecret) (calls : Calls)
      → ReadsBack value
      → value.db_password ≢ ""
      → Stored w c.region name value "" calls
      → w.reply calls (get_secret_value c.region name) ≡ ok (stored_value w c.region name calls)
      → (get_secret w c name calls).0 ≡ ok (credentials value)
  unfolding to_json
  stored-get_secret value calls back given (json, made, held) reply =
      get_secret-reads json (credentials value) calls (reply ∙ ap ok held)
        (back json (sym (default_json value) ∙ made) ∙ ap ok (from_fields-secret_map value)) given

-- AWS returns for the secret the value that was last written, and json.Unmarshal reads the fields by
-- their keys from what json.Marshal made of the map. Then GetSecret, called behind a CreateSecret
-- that returned, also where that found the secret scheduled for deletion and restored it, returns
-- the credentials that were given, but for the URL and the engine, if their password is not empty.
pub create_secret-get_secret :
    (w : World) (c : AwsClient) (name description arn version : String) (value : DatabaseSecret)
    (tags : Dict String) (calls calls' : Calls)
    → ReadsBack w c name value
    → value.db_password ≢ ""
    → create_secret w c name description value tags calls ≡ (ok (arn, version), calls')
    → w.reply calls' (get_secret_value c.region name) ≡ ok (stored_value w c.region name calls')
    → (get_secret w c name calls').0 ≡ ok (credentials w c name value)
unfolding create_secret
create_secret-get_secret w c name description arn version value tags calls calls' back given e
      reply =
    stored-get_secret w c name value calls' back given
      (Triple-ok (λ _. Stored w c.region name value "") _
        (create_secret-Triple w c name value "" description tags) (arn, version) calls calls' tt e)
      reply

-- The same behind an UpdateSecret that returned, if the password is not empty.
pub update_secret-get_secret :
    (w : World) (c : AwsClient) (name version : String) (value : DatabaseSecret)
    (calls calls' : Calls)
    → ReadsBack w c name value
    → value.db_password ≢ ""
    → update_secret w c name value calls ≡ (ok version, calls')
    → w.reply calls' (get_secret_value c.region name) ≡ ok (stored_value w c.region name calls')
    → (get_secret w c name calls').0 ≡ ok (credentials w c name value)
unfolding update_secret
update_secret-get_secret w c name version value calls calls' back given e reply =
    stored-get_secret w c name value calls' back given
      (Triple-ok (λ _. Stored w c.region name value "") _ (update_secret-Triple w c name value "")
        version calls calls' tt e)
      reply
