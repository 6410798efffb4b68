-- ===== src/Controller/Store/Laws.antt =====
-- What storeCredentialsInAWS deletes, and when.
use database_user_operator.Base.{
  ◌≡◌, refl, Bool, true, false, Result, ok, err, String, ◌⊎◌, inl, inr, GoError, ◌&&◌, not, ◌==◌,
  eq_iff, arith,
}
use database_user_operator.World.{World, DatabaseSecret}
use database_user_operator.Effects.{Calls, Effect, ◌>>=◌, ◌>>◌, pure, proceed}
use database_user_operator.Effects.Keeps.{Keeps, keeps_rules}
use database_user_operator.Effects.Avoids.{Avoids, Kind, by_kind, Ignores, Ignores-Avoids}
use database_user_operator.Effects.Avoids
use database_user_operator.Api.{Database}
use database_user_operator.Secrets.Client.{AwsClient}
use database_user_operator.Secrets.Client.Calls.{
  new_aws_client-Keeps, secret_exists-Keeps, update_secret_with_template-Keeps,
  create_secret_with_template-Keeps, get_secret_arn-Keeps, delete-Keeps,
}
use database_user_operator.Controller.Store.{
  look_in_old_region, create_new, after_update, write_secret, delete_in_old_region, moves,
  write_and_tag, store_secret,
}
use database_user_operator.Controller.Calls.{sync_tags-Keeps}

module _ (w : World) (P : Calls → Type 0) (h : Ignores P Avoids.secret) where
  look_in_old_region-Keeps :
      (changed exists : Bool) (region name : String)
      → Keeps P (look_in_old_region w changed exists region name)
  unfolding look_in_old_region
  look_in_old_region-Keeps changed exists region name =
      search (keeps_rules, new_aws_client-Keeps, secret_exists-Keeps) depth 10

  delete_in_old_region-Keeps :
      (changed : Bool) (arn region name : String)
      → Ignores P Avoids.delete
      → Keeps P (delete_in_old_region w changed arn region name)
  unfolding delete_in_old_region
  delete_in_old_region-Keeps changed arn region name k =
      search (keeps_rules, new_aws_client-Keeps, delete-Keeps) depth 10

  module _ (v : Ignores P Avoids.write) where
    create_new-Keeps :
        (c : AwsClient) (db : Database) (name : String) (value : DatabaseSecret)
        → Keeps P (create_new w c db name value)
    unfolding create_new
    create_new-Keeps c db name value = create_secret_with_template-Keeps w P h v c name _ value _ _

    after_update-Keeps :
        (c : AwsClient) (db : Database) (name : String) (value : DatabaseSecret) (r : Result String)
        → Keeps P (after_update w c db name value r)
    unfolding after_update
    after_update-Keeps c db name value (ok v) = search (keeps_rules, get_secret_arn-Keeps)
    after_update-Keeps c db name value (err e) = search (keeps_rules, create_new-Keeps)

    write_secret-Keeps :
        (c : AwsClient) (db : Database) (name : String) (value : DatabaseSecret) (exists : Bool)
        → Keeps P (write_secret w c db name value exists)
    unfolding write_secret
    write_secret-Keeps c db name value true =
        search (keeps_rules, update_secret_with_template-Keeps, after_update-Keeps)
    write_secret-Keeps c db name value false = create_new-Keeps c db name value

    pub write_and_tag-Keeps :
        (db : Database) (name : String) (value : DatabaseSecret)
        → Keeps P (write_and_tag w db name value)
    unfolding write_and_tag
    write_and_tag-Keeps db name value =
        search
          (
            keeps_rules, new_aws_client-Keeps, secret_exists-Keeps, look_in_old_region-Keeps,
            write_secret-Keeps, sync_tags-Keeps,
          )
          depth 12

    pub store_secret-Keeps :
        (db : Database) (name : String) (value : DatabaseSecret)
        → Ignores P Avoids.delete
        → Keeps P (store_secret w db name value)
    unfolding store_secret
    store_secret-Keeps db name value k =
        search (keeps_rules, write_and_tag-Keeps, delete_in_old_region-Keeps)

abbrev pub deletes : Kind → Bool
deletes Avoids.delete = true
deletes _ = false

-- No reason to delete the secret in the old region: the region is the same, or the secret was not
-- written, or it was written and has no ARN.
abbrev pub Stays : Database → Result (String × String × String) → Type 0
Stays db r =
    (moves db ≡ false)
    ⊎ ((e : GoError) × (r ≡ err e))
    ⊎ ((version region : String) × (r ≡ ok ("", version, region)))

ok_arn :
    (arn version region v r : String)
    → ◌≡◌ {A = Result (String × String × String)} (ok (arn, version, region)) (ok ("", v, r))
    → arn ≡ ""
ok_arn arn version region v r h = cc

module _ (w : World) (db : Database) (name : String) (value : DatabaseSecret) where
  delete_none :
      (changed : Bool) (arn region : String) (calls : Calls)
      → (changed && not (arn == "")) ≡ false
      → delete_in_old_region w changed arn region name calls ≡ (ok tt, calls)
  unfolding delete_in_old_region pure
  delete_none changed arn region calls h = rw h

  -- The end of the function, behind the calls that wrote the secret and its tags.
  abbrev finish : String × String × String → Effect (String × String × String)
  finish stored = do
    delete_in_old_region w (moves db) stored.0 db.status.secret_region name
    pure stored

  finish_none :
      (arn version region : String) (calls : Calls)
      → (moves db && not (arn == "")) ≡ false
      → finish (arn, version, region) calls ≡ (ok (arn, version, region), calls)
  unfolding ◌>>=◌
  finish_none arn version region calls h = rw (delete_none (moves db) arn _ calls h)

  finish-Stays :
      (r : Result (String × String × String)) (calls : Calls)
      → Stays db r
      → Avoids (by_kind deletes) calls
      → Avoids (by_kind deletes) (proceed r finish calls).1
  finish-Stays (err e) calls h a = a
  finish-Stays (ok (arn, version, region)) calls (inl same) a =
      rw (finish_none arn version region calls (rw same)) a
  finish-Stays (ok (arn, version, region)) calls (inr (inl (e, failed))) a = cc
  finish-Stays (ok (arn, version, region)) calls (inr (inr (v, r, written))) a =
      rw
        (finish_none arn version region calls
          (ground (arith, eq_iff arn "", ok_arn arn version region v r written)))
        a

  -- No secret is deleted if the status names no region or the one that the spec names, both compared
  -- before the AWS SDK resolves them, or if the writing of the secret or of its tags failed, or if
  -- the secret that was written has no ARN.
  pub store_secret-Stays :
      (calls : Calls)
      → Avoids (by_kind deletes) calls
      → Stays db (write_and_tag w db name value calls).0
      → Avoids (by_kind deletes) (store_secret w db name value calls).1
  unfolding store_secret ◌>>=◌
  store_secret-Stays calls a h =
      finish-Stays (write_and_tag w db name value calls).0 (write_and_tag w db name value calls).1 h
        ((write_and_tag-Keeps w (Avoids (by_kind deletes))
            (Ignores-Avoids deletes Avoids.secret refl) (Ignores-Avoids deletes Avoids.write refl)
            db name value).after
          calls a)
