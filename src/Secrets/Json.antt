-- ===== src/Secrets/Json.antt =====
-- DatabaseSecret of internal/secrets/aws_secrets_manager.go as JSON: ToJSONWithTemplate, toJSONDefault
-- and the part of GetSecret that reads the old format.
pub mod Fields
use database_user_operator.Base.{
  Bool, ◌&&◌, not, Option, none, some, String, ◌<>◌, [], ◌∷◌, ◌==◌, if◌then◌else◌, wrapped, Result,
  ok, err, Dict, lookup, insert, ℤ, pos, zero, to_upper, to_lower, has_prefix, codes,
}
use database_user_operator.World.{World, Value, text, number, DatabaseSecret}

-- The name of the engine begins with "postgres", in any case of its letters.
unfoldable pub is_postgres : String → Bool
unfolding to_lower has_prefix codes
is_postgres engine = has_prefix (to_lower engine) (codes "postgres")

-- The key of the URL in the default format.
unfoldable pub url_field_name : String → String
unfolding is_postgres to_upper
url_field_name engine = if is_postgres engine then "POSTGRES_URL" else to_upper engine <> "_URL"

-- secretMap of toJSONDefault
unfoldable pub secret_map : DatabaseSecret → Dict Value
unfolding url_field_name insert
secret_map s =
    let fields =
      ("DB_HOST", text s.db_host)
      ∷ ("DB_PORT", number s.db_port)
      ∷ ("DB_NAME", text s.db_name)
      ∷ ("DB_USERNAME", text s.db_username)
      ∷ ("DB_PASSWORD", text s.db_password)
      ∷ [] in
    if not (s.database_url == "") && not (s.engine == "")
    then insert (url_field_name s.engine) (text s.database_url) fields
    else fields

module _ (w : World) where
  unfoldable pub to_json_default : DatabaseSecret → Result String
  unfolding secret_map
  to_json_default s = w.marshal (secret_map s)

  -- The check that the output of a template is JSON.
  checked_json : Result Value → String → Result String
  checked_json (ok v) output = ok output
  checked_json (err e) output = err (wrapped "template output is not valid JSON" e)

  executed : Result String → Result String
  unfolding checked_json
  executed (ok output) = checked_json (w.unmarshal_any output) output
  executed (err e) = err (wrapped "failed to execute secret template" e)

  parsed : Result (DatabaseSecret → Result String) → DatabaseSecret → Result String
  unfolding executed
  parsed (ok template) s = executed (template s)
  parsed (err e) s = err (wrapped "failed to parse secret template" e)

  unfoldable pub to_json_with_template : DatabaseSecret → String → Result String
  unfolding parsed to_json_default
  to_json_with_template s template =
      if template == "" then to_json_default s else parsed (w.parse_template template) s

  -- ToJSON
  unfoldable pub to_json : DatabaseSecret → Result String
  unfolding to_json_with_template
  to_json s = to_json_with_template s ""

-- value.(string), on what a map holds under a key.
unfoldable pub as_text : Option Value → Option String
as_text (some (text s)) = some s
as_text _ = none

-- value.(float64), converted to an int.
unfoldable pub as_number : Option Value → Option ℤ
as_number (some (number n)) = some n
as_number _ = none

-- What a field of a string and one of a number hold behind json.Unmarshal, if the key is missing or
-- holds what the field wants.
unfoldable pub text_field : Option Value → String
text_field (some (text s)) = s
text_field _ = ""

unfoldable pub number_field : Option Value → ℤ
number_field (some (number n)) = n
number_field _ = pos 0

-- The fields of a DatabaseSecret by the keys of their tags. Two have the tag "-" and are not read.
unfoldable pub from_fields : Dict Value → DatabaseSecret
unfolding lookup text_field number_field
from_fields m = record {
  db_host = text_field (lookup "DB_HOST" m);
  db_port = number_field (lookup "DB_PORT" m);
  db_name = text_field (lookup "DB_NAME" m);
  db_username = text_field (lookup "DB_USERNAME" m);
  db_password = text_field (lookup "DB_PASSWORD" m);
  database_url = "";
  engine = "";
}

-- A field that the new format left empty takes the value of the old one, if that is a string.
unfoldable pub fill_text : String → Option String → String
fill_text current none = current
fill_text current (some s) = if current == "" then s else current

unfoldable pub fill_number : ℤ → Option ℤ → ℤ
fill_number (pos zero) (some n) = n
fill_number current _ = current

-- The secret with its empty fields filled from the old format. It is called with no password.
unfoldable pub fill_from_old : DatabaseSecret → Dict Value → DatabaseSecret
unfolding lookup as_text as_number fill_text fill_number
fill_from_old s old = record s {
  db_password = fill_text s.db_password (as_text (lookup "password" old));
  db_host = fill_text s.db_host (as_text (lookup "host" old));
  db_port = fill_number s.db_port (as_number (lookup "port" old));
  db_name = fill_text s.db_name (as_text (lookup "dbname" old));
  db_username = fill_text s.db_username (as_text (lookup "username" old));
}

-- The old format is not read if it is no JSON object.
unfoldable pub with_old_format : DatabaseSecret → Result (Dict Value) → DatabaseSecret
unfolding fill_from_old
with_old_format s (err e) = s
with_old_format s (ok old) = fill_from_old s old
