-- ===== src/Controller/Tags.antt =====
-- The tags of a secret: tagsEqual, getTagsToRemove, getTagsToAdd of
-- internal/controller/database_controller.go, and the synchronisation of tags that reconcileDatabase
-- and storeCredentialsInAWS both contain.
pub mod Laws
use database_user_operator.Base.{
  ℕ, zero, suc, Bool, true, false, not, Option, none, some, String, List, [], ◌∷◌, ◌==◌, ◌=ℕ◌,
  if◌then◌else◌, Result, ok, err, Dict, lookup, insert, insert_all, has_key,
}
use database_user_operator.World.{World}
use database_user_operator.Effects.{Effect, pure, attempt, wrap, ◌>>=◌, ◌>>◌}
use database_user_operator.Api.{AwsSecretsManagerConfig, Database}
use database_user_operator.Secrets.Client.{AwsClient, get_secret_tags, tag_secret, untag_secret}

-- Tags of a configuration that may be missing.
unfoldable pub config_tags : Option AwsSecretsManagerConfig → Dict String
config_tags none = []
config_tags (some c) = c.tags

-- The tags that the secret shall have: the operator's own, and over it those of the spec.
unfoldable pub desired_tags : Database → Dict String
unfolding insert_all config_tags
desired_tags db =
    insert_all (config_tags db.spec.aws_secrets_manager)
      (("ManagedBy", "database-user-operator") ∷ [])

-- getTagsToRemove: the keys of the first map that the second lacks.
unfoldable pub get_tags_to_remove : Dict String → Dict String → List String
unfolding has_key
get_tags_to_remove [] desired = []
get_tags_to_remove ((key, _) ∷ current) desired =
    let rest = get_tags_to_remove current desired in
    if has_key key desired then rest else key ∷ rest

-- The value under a key, the empty text if there is none: b[k].
unfoldable pub value_of : Option String → String
value_of none = ""
value_of (some v) = v

-- The value that is already there, if any, is the one that is wanted.
unfoldable pub is_current : Option String → String → Bool
is_current none value = false
is_current (some v) value = v == value

-- getTagsToAdd: the entries of the second map that the first lacks or holds with another value.
unfoldable pub get_tags_to_add : Dict String → Dict String → Dict String
unfolding lookup is_current
get_tags_to_add current [] = []
get_tags_to_add current ((key, value) ∷ desired) =
    let rest = get_tags_to_add current desired in
    if is_current (lookup key current) value then rest else (key, value) ∷ rest

-- len(m)
unfoldable pub size {ℓ} : {V : Type ℓ} → Dict V → ℕ
size [] = 0
size (e ∷ m) = suc (size m)

-- The loop of tagsEqual over its first map.
unfoldable pub agrees : Dict String → Dict String → Bool
unfolding lookup value_of
agrees [] b = true
agrees ((k, v) ∷ a) b = if value_of (lookup k b) == v then agrees a b else false

unfoldable pub tags_equal : Dict String → Dict String → Bool
unfolding size agrees
tags_equal a b = if size a =ℕ size b then agrees a b else false

-- The tags of the secret, or none if they cannot be read.
unfoldable pub existing_tags : Result (Dict String) → Dict String
existing_tags (ok tags) = tags
existing_tags (err e) = []

module _ (w : World) where
  unfoldable pub remove_tags : AwsClient → String → List String → Effect Unit
  remove_tags c name [] = pure tt
  remove_tags c name (key ∷ keys) =
      wrap "failed to remove secret tags" (untag_secret w c name (key ∷ keys))

  -- Tags that are not wanted are removed, and those that are wanted are set.
  unfoldable pub sync_tags : AwsClient → String → Dict String → Effect Unit
  sync_tags c name desired = do
    found ← attempt (get_secret_tags w c name)
    remove_tags c name (get_tags_to_remove (existing_tags found) desired)
    wrap "failed to update secret tags" (tag_secret w c name desired)
