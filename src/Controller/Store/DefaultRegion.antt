-- ===== src/Controller/Store/DefaultRegion.antt =====
-- storeCredentialsInAWS with a spec that names no region, in internal/controller/database_controller.go:
-- the region of the status is compared with the empty text, not with the region that was resolved.
use database_user_operator.Base.{◌≡◌, ◌≢◌, refl, true, ok, none, String, ◌∷◌, eq-false_of_ne}
use database_user_operator.World.{World, DatabaseSecret, load_config, delete_secret}
use database_user_operator.Effects.{Calls, ◌>>=◌, perform}
use database_user_operator.Api.{Database}
use database_user_operator.Secrets.Client.{AwsClient, new_aws_client, delete}
use database_user_operator.Secrets.Client.Calls.{deleted-calls}
use database_user_operator.Controller.Spec.{get_region}
use database_user_operator.Controller.Store.{
  delete_in_old_region, moves, write_and_tag, store_secret,
}

moves-true : (db : Database) → get_region db ≡ "" → db.status.secret_region ≢ "" → moves db ≡ true
unfolding moves
moves-true db none_given named =
    rw none_given (rw (eq-false_of_ne db.status.secret_region "" named) refl)

new_aws_client-resolved :
    (w : World) (region : String) (calls : Calls)
    → w.reply calls (load_config region) ≡ ok region
    → new_aws_client w region calls ≡ (ok (record { region = region }), load_config region ∷ calls)
unfolding new_aws_client ◌>>=◌ perform
new_aws_client-resolved w region calls h = rw h

delete-calls :
    (w : World) (c : AwsClient) (name : String) (calls : Calls)
    → (delete w c name true calls).1 ≡ delete_secret c.region name true none ∷ calls
unfolding delete ◌>>=◌ perform
delete-calls w c name calls = deleted-calls w _ _

-- The deletion in a region whose client can be made: two calls, whatever the reply to the second.
delete_in_old_region-calls :
    (w : World) (arn region name : String) (calls : Calls)
    → arn ≢ ""
    → w.reply calls (load_config region) ≡ ok region
    → delete_in_old_region w true arn region name calls
      ≡ (ok tt, delete_secret region name true none ∷ load_config region ∷ calls)
unfolding delete_in_old_region ◌>>=◌
delete_in_old_region-calls w arn region name calls a r =
    rw (eq-false_of_ne arn "" a, new_aws_client-resolved w region calls r)
      (rw (delete-calls w (record { region = region }) name (load_config region ∷ calls)) refl)

-- If the spec names no region, the status names the region in which the secret has just been
-- written and tagged, the secret has an ARN, and LoadDefaultConfig of the AWS SDK accepts this region
-- and resolves it to itself, then the function goes on to delete this very
-- secret, at once and with no recovery: its last two calls open a client for the region and
-- delete the secret of the same name. It returns no error.
pub store_secret_deletes_current :
    (w : World) (db : Database) (name : String) (value : DatabaseSecret) (calls written : Calls)
    (arn version region : String)
    → get_region db ≡ ""
    → write_and_tag w db name value calls ≡ (ok (arn, version, region), written)
    → db.status.secret_region ≡ region
    → region ≢ ""
    → arn ≢ ""
    → w.reply written (load_config region) ≡ ok region
    → store_secret w db name value calls ≡ (
      ok (arn, version, region),
      delete_secret region name true none ∷ load_config region ∷ written,
    )
unfolding store_secret ◌>>=◌
store_secret_deletes_current w db name value calls written arn version region none_given stored same
      named has_arn resolved =
    rw (
      stored,
      moves-true db none_given (rw same named),
      same,
      delete_in_old_region-calls w arn region name written has_arn resolved,
    )
