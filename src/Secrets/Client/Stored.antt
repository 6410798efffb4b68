-- ===== src/Secrets/Client/Stored.antt =====
-- The value that AWS holds for a secret, as a reading of the calls that it accepted.
use database_user_operator.Base.{
  ◌≡◌, refl, ap, ◌∙◌, Bool, true, false, ◌&&◌, ◌==◌, Option, none, some, String, [], ◌∷◌,
  if◌then◌else◌, Result, ok, err,
}
use database_user_operator.World
use database_user_operator.World.{
  World, Call, Reply, Written, DatabaseSecret, create_secret, update_secret, delete_secret,
}
use database_user_operator.Effects.{Calls}
use database_user_operator.Effects.Avoids.{Ignores, Kind, kind, write, delete}
use database_user_operator.Secrets.Json.{to_json_with_template}

abbrev pub same : (region name region' name' : String) → Bool
same region name region' name' = (region' == region) && (name' == name)

-- The value of an update, which may leave it out.
abbrev pub or_value : Option String → Option String → Option String
or_value (some v) old = some v
or_value none old = old

-- The value behind a call that writes or deletes, if the call was accepted.
abbrev pub when_ok : {A : Type 0} → Result A → Option String → Option String → Option String
when_ok (ok a) new old = new
when_ok (err e) new old = old

-- A secret that was deleted has no value until one is written, also if it is restored.
unfoldable pub stored_value : World → (region name : String) → Calls → Option String
stored_value w region name [] = none
stored_value w region name (World.create_secret r input ∷ calls) =
    let old = stored_value w region name calls in
    if same region name r input.name
    then when_ok (w.reply calls (create_secret r input)) (some input.secret_string) old
    else old
stored_value w region name (World.update_secret r input ∷ calls) =
    let old = stored_value w region name calls in
    if same region name r input.secret_id
    then when_ok (w.reply calls (update_secret r input)) (or_value input.secret_string old) old
    else old
stored_value w region name (World.delete_secret r n force window ∷ calls) =
    let old = stored_value w region name calls in
    if same region name r n
    then when_ok (w.reply calls (delete_secret r n force window)) none old
    else old
stored_value w region name (c ∷ calls) = stored_value w region name calls

abbrev stores : Kind → Bool
stores write = true
stores delete = true
stores _ = false

module _ (w : World) (region name : String) where
  other-stored :
      (c : Call) (calls : Calls)
      → stores (kind c) ≡ false
      → stored_value w region name (c ∷ calls) ≡ stored_value w region name calls
  unfolding stored_value
  other-stored (World.create_secret r input) calls e = cc
  other-stored (World.update_secret r input) calls e = cc
  other-stored (World.delete_secret r n force window) calls e = cc
  other-stored _ calls e = refl

  pub stored-Ignores :
      (Q : Option String → Type 0) (k : Kind)
      → stores k ≡ false
      → Ignores (λ calls. Q (stored_value w region name calls)) k
  stored-Ignores Q k h = record {
    more = λ c calls e q. rw (other-stored c calls (ap stores e ∙ h)) q;
  }

  -- The secret holds the JSON of a value.
  abbrev pub Holds : DatabaseSecret → (template : String) → Option String → Type 0
  Holds value template o =
      (json : String) × (to_json_with_template w value template ≡ ok json) × (o ≡ some json)

  abbrev pub Stored : DatabaseSecret → (template : String) → Calls → Type 0
  Stored value template calls = Holds value template (stored_value w region name calls)
