-- ===== src/Api/Schema.antt =====
-- The validation markers of api/v1alpha1/database_types.go, which the API server checks when an object
-- is created or edited.
use database_user_operator.Base.{
  ℕ, Bool, true, false, ◌&&◌, ◌||◌, Option, none, some, String, List, [], ◌∷◌, ◌==◌, ◌=ℕ◌, leb,
  if◌then◌else◌, codes, length_text,
}
use database_user_operator.Api.{AwsSecretReference, AwsSecretsManagerConfig, DatabaseSpec}

-- Enum of DatabaseEngine
abbrev pub engines : List String
engines = "postgres" ∷ "postgresql" ∷ "mysql" ∷ "mariadb" ∷ []

-- Enum of the field Region, the same in both structs that have it.
abbrev pub regions : List String
regions =
    "us-east-1" ∷ "us-east-2" ∷ "us-west-1" ∷ "us-west-2" ∷ "us-gov-west-1" ∷ "us-gov-east-1"
    ∷ "af-south-1" ∷ "ap-east-1" ∷ "ap-south-1" ∷ "ap-south-2" ∷ "ap-northeast-1" ∷ "ap-northeast-2"
    ∷ "ap-northeast-3" ∷ "ap-southeast-1" ∷ "ap-southeast-2" ∷ "ap-southeast-3" ∷ "ap-southeast-4"
    ∷ "ca-central-1" ∷ "ca-west-1" ∷ "eu-central-1" ∷ "eu-central-2" ∷ "eu-west-1" ∷ "eu-west-2"
    ∷ "eu-west-3" ∷ "eu-south-1" ∷ "eu-south-2" ∷ "eu-north-1" ∷ "me-south-1" ∷ "me-central-1"
    ∷ "sa-east-1" ∷ "cn-north-1" ∷ "cn-northwest-1" ∷ "il-central-1" ∷ []

unfoldable pub in_enum : String → List String → Bool
in_enum value [] = false
in_enum value (v ∷ values) = if v == value then true else in_enum value values

unfoldable pub is_lower : ℕ → Bool
is_lower c = leb b'a' c && leb c b'z'

unfoldable pub is_word : ℕ → Bool
unfolding is_lower
is_word c = is_lower c || ((leb b'0' c && leb c b'9') || (c =ℕ b'_'))

unfoldable pub all_word : List ℕ → Bool
unfolding is_word
all_word [] = true
all_word (c ∷ s) = is_word c && all_word s

-- Pattern=^[a-z][a-z0-9_]*$
unfoldable pub matches_pattern : List ℕ → Bool
unfolding is_lower all_word
matches_pattern [] = false
matches_pattern (c ∷ s) = is_lower c && all_word s

-- The markers of DatabaseName.
unfoldable pub admits_database_name : String → Bool
unfolding matches_pattern codes length_text
admits_database_name s =
    leb 1 (length_text s) && (leb (length_text s) 63 && matches_pattern (codes s))

-- The markers of Username, which are not checked where the field is omitted. (The field is omitted
-- from the JSON of an object whose user name is the empty text.)
unfoldable pub admits_username : String → Bool
unfolding matches_pattern codes length_text
admits_username s = (s == "") || (leb (length_text s) 63 && matches_pattern (codes s))

unfoldable pub admits_config : Option AwsSecretsManagerConfig → Bool
unfolding in_enum
admits_config none = true
admits_config (some c) = in_enum c.region regions

unfoldable pub admits_reference : Option AwsSecretReference → Bool
unfolding in_enum
admits_reference none = true
admits_reference (some r) = in_enum r.region regions

unfoldable pub admits : DatabaseSpec → Bool
unfolding in_enum admits_database_name admits_username admits_config admits_reference
admits spec =
    in_enum spec.engine engines
    && (admits_database_name spec.database_name
        && (admits_username spec.username
            && (admits_config spec.aws_secrets_manager
                && admits_reference spec.connection_string_aws_secret_ref)))
