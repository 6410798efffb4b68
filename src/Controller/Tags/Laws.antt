-- ===== src/Controller/Tags/Laws.antt =====
-- The tags that a secret has behind a synchronisation. UntagResource and TagResource of AWS are
-- described as documented: the one removes the keys that it is given, the other sets the tags that it
-- is given and leaves the rest.
use database_user_operator.Base.{
  ◌≡◌, refl, sym, ◌∙◌, Bool, true, false, not, ◌&&◌, Option, none, some, String, List, [], ◌∷◌,
  ◌==◌, if◌then◌else◌, arith, eq_iff, Dict, lookup, insert_all, has_key, IsDistinct, lookup-none,
  lookup-insert_all, insert_all-IsDistinct,
}
use database_user_operator.Api.{Database}
use database_user_operator.Controller.Tags.{
  config_tags, desired_tags, get_tags_to_remove, is_current, get_tags_to_add,
}

unfoldable pub is_in : String → List String → Bool
is_in k [] = false
is_in k (j ∷ keys) = if j == k then true else is_in k keys

-- UntagResource
unfoldable pub untag : List String → Dict String → Dict String
unfolding is_in
untag keys [] = []
untag keys ((k, v) ∷ m) = let rest = untag keys m in if is_in k keys then rest else (k, v) ∷ rest

lookup-untag :
    (k : String) (keys : List String) (m : Dict String)
    → lookup k (untag keys m) ≡ (if is_in k keys then none else lookup k m)
unfolding lookup untag
lookup-untag k keys [] = ground arith
lookup-untag k keys ((j, v) ∷ m) = ground (arith, eq_iff j k, lookup-untag k keys m)

is_in-removed :
    (k : String) (current desired : Dict String)
    → is_in k (get_tags_to_remove current desired) ≡ (has_key k current && not (has_key k desired))
unfolding is_in get_tags_to_remove has_key
is_in-removed k [] desired = refl
is_in-removed k ((j, v) ∷ current) desired =
    ground (arith, eq_iff j k, is_in-removed k current desired)

-- With a map of tags that are wanted, the tags behind the removal and the setting are those.
synced :
    (k : String) (current desired : Dict String)
    → IsDistinct desired
    → lookup k (insert_all desired (untag (get_tags_to_remove current desired) current))
      ≡ lookup k desired
synced k current desired h = ground (
  arith,
  lookup-insert_all k desired (untag (get_tags_to_remove current desired) current) h,
  lookup-untag k (get_tags_to_remove current desired) current,
  is_in-removed k current desired,
  lookup-none k desired,
  lookup-none k current,
)

desired_tags-IsDistinct : (db : Database) → IsDistinct (desired_tags db)
unfolding desired_tags IsDistinct has_key
desired_tags-IsDistinct db =
    insert_all-IsDistinct (config_tags db.spec.aws_secrets_manager) _ (refl, tt)

-- Whatever tags a secret has, removing those that getTagsToRemove names and then setting the
-- desired tags leaves exactly the desired tags: no other key stays, none is missing, and every value
-- is the desired one.
pub get_tags_to_remove_syncs :
    (db : Database) (current : Dict String) (k : String)
    → lookup k (
        insert_all (desired_tags db) (untag (get_tags_to_remove current (desired_tags db)) current))
      ≡ lookup k (desired_tags db)
get_tags_to_remove_syncs db current k =
    synced k current (desired_tags db) (desired_tags-IsDistinct db)

-- The tags of the spec win over the operator's own tag ManagedBy, and there are no others.
pub desired_tags_precedence :
    (db : Database) (k : String)
    → IsDistinct (config_tags db.spec.aws_secrets_manager)
    → lookup k (desired_tags db) ≡ (
        if has_key k (config_tags db.spec.aws_secrets_manager)
        then lookup k (config_tags db.spec.aws_secrets_manager)
        else if "ManagedBy" == k
        then some "database-user-operator"
        else none)
unfolding desired_tags lookup
desired_tags_precedence db k h = lookup-insert_all k (config_tags db.spec.aws_secrets_manager) _ h

has_key-added :
    (k : String) (current desired : Dict String)
    → has_key k desired ≡ false
    → has_key k (get_tags_to_add current desired) ≡ false
unfolding has_key get_tags_to_add
has_key-added k current [] h = refl
has_key-added k current ((j, v) ∷ desired) h = ground (arith, has_key-added k current desired)

added-IsDistinct :
    (current desired : Dict String)
    → IsDistinct desired
    → IsDistinct (get_tags_to_add current desired)
unfolding IsDistinct get_tags_to_add
added-IsDistinct current [] h = tt
added-IsDistinct current ((j, v) ∷ desired) h =
    ground (arith, has_key-added j current desired, added-IsDistinct current desired)

is_current-some : (o : Option String) (v : String) → is_current o v ≡ true → o ≡ some v
unfolding is_current
is_current-some none v h = cc
is_current-some (some w) v h = ground (arith, eq_iff w v)

-- An entry is left out only if its value is there already.
lookup-added :
    (k : String) (current desired : Dict String)
    → IsDistinct desired
    → (if has_key k (get_tags_to_add current desired)
        then lookup k (get_tags_to_add current desired)
        else lookup k current)
      ≡ (if has_key k desired then lookup k desired else lookup k current)
unfolding lookup has_key get_tags_to_add IsDistinct
lookup-added k current [] h = refl
lookup-added k current ((j, v) ∷ desired) h = ground (
  arith,
  eq_iff j k,
  is_current-some (lookup j current) v,
  has_key-added k current desired,
  lookup-added k current desired,
)

-- Setting the tags that getTagsToAdd returns has the same effect as setting all desired tags: the
-- tags that it leaves out are there with the desired values.
pub get_tags_to_add_suffices :
    (current desired : Dict String) (k : String)
    → IsDistinct desired
    → lookup k (insert_all (get_tags_to_add current desired) current)
      ≡ lookup k (insert_all desired current)
get_tags_to_add_suffices current desired k h =
    lookup-insert_all k (get_tags_to_add current desired) current
      (added-IsDistinct current desired h)
    ∙ lookup-added k current desired h
    ∙ sym (lookup-insert_all k desired current h)
