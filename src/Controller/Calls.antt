-- ===== src/Controller/Calls.antt =====
-- The kinds of calls that the parts of a reconciliation make, with those of Store, Resources and
-- Delete in their own modules below.
use database_user_operator.Base.{Result, ok, err, Bool, String, List, [], ◌∷◌, Dict}
use database_user_operator.World.{World}
use database_user_operator.Effects.{Calls, Effect}
use database_user_operator.Effects.Keeps.{Keeps, keeps_rules}
use database_user_operator.Effects.Avoids.{
  Avoids, Keeps-perform, Kind, by_kind, kube, Ignores, Ignores-Avoids,
}
use database_user_operator.Effects.Avoids
use database_user_operator.Effects.Triples.{Post, Triple}
use database_user_operator.Api.{SecretKeyReference, AwsSecretReference, Database, DatabaseStatus}
use database_user_operator.Secrets.Client.{AwsClient}
use database_user_operator.Secrets.Client.Calls.{
  new_aws_client-Keeps, get_secret_string-Keeps, get_secret_tags-Keeps, untag_secret-Keeps,
  tag_secret-Keeps,
}
use database_user_operator.Controller.State.{State, effect, current, modify_status}
use database_user_operator.Controller.Spec.{Source, kube_secret, aws_secret}
use database_user_operator.Controller.Tags.{remove_tags, sync_tags}
use database_user_operator.Controller.Source.{
  connection_string_from_kube_secret, connection_string_in, connection_string_from_aws_secret,
  connection_string_from, get_connection_string,
}

-- A property of the calls that a reconciliation has made.
abbrev pub Trace : (Calls → Type 0) → State → Type 0
Trace P s = P s.calls

-- The calls that a reconciliation has made are not bad.
abbrev pub Clean : (Kind → Bool) → State → Type 0
Clean bad = Trace (Avoids (by_kind bad))

module _ (P : Calls → Type 0) where
  pub effect-Trace : {A : Type 0} (m : Effect A) → Keeps P m → Keeps (Trace P) (effect m)
  unfolding effect
  effect-Trace m k = record { after = λ s. k.after s.calls }

  pub current-Trace : Keeps (Trace P) current
  unfolding current
  current-Trace = record { after = λ s h. h }

  pub modify_status-Trace :
      (f : DatabaseStatus → DatabaseStatus) → Keeps (Trace P) (modify_status f)
  unfolding modify_status
  modify_status-Trace f = record { after = λ s h. h }

-- What a call leaves behind.
module _ {A : Type 0} (before : Calls → Type 0) (value : A → Calls → Type 0)
    (error : Calls → Type 0) where
  effect-Post :
      (r : Result A) (calls : Calls) (s : State)
      → Post value error (r, calls)
      → Post (λ a. Trace (value a)) (Trace error) (r, record s { calls = calls })
  effect-Post (ok a) calls s h = h
  effect-Post (err e) calls s h = h

  pub effect-Triple :
      (m : Effect A)
      → Triple before m value error
      → Triple (Trace before) (effect m) (λ a. Trace (value a)) (Trace error)
  unfolding effect
  effect-Triple m t = record {
    run = λ s p. effect-Post (m s.calls).0 (m s.calls).1 s (t.run s.calls p);
  }

pub ruleset step_rules = (keeps_rules, effect-Trace, current-Trace, modify_status-Trace)

module _ (w : World) (P : Calls → Type 0) (h : Ignores P Avoids.secret) where
  remove_tags-Keeps :
      (c : AwsClient) (name : String) (keys : List String) → Keeps P (remove_tags w c name keys)
  unfolding remove_tags
  remove_tags-Keeps c name [] = search keeps_rules
  remove_tags-Keeps c name (k ∷ ks) = search (keeps_rules, untag_secret-Keeps)

  pub sync_tags-Keeps :
      (c : AwsClient) (name : String) (desired : Dict String) → Keeps P (sync_tags w c name desired)
  unfolding sync_tags
  sync_tags-Keeps c name desired =
      search (keeps_rules, get_secret_tags-Keeps, remove_tags-Keeps, tag_secret-Keeps) depth 8

module _ (w : World) (P : Calls → Type 0) (h : Ignores P Avoids.secret) (k : Ignores P kube) where
  from_kube_secret-Keeps :
      (namespace : String) (ref : SecretKeyReference)
      → Keeps P (connection_string_from_kube_secret w namespace ref)
  unfolding connection_string_from_kube_secret
  from_kube_secret-Keeps namespace ref = search (keeps_rules, Keeps-perform) depth 8

  string_in-Keeps : (key s : String) → Keeps P (connection_string_in w key s)
  unfolding connection_string_in
  string_in-Keeps key s = search keeps_rules depth 8

  from_aws_secret-Keeps :
      (ref : AwsSecretReference) → Keeps P (connection_string_from_aws_secret w ref)
  unfolding connection_string_from_aws_secret
  from_aws_secret-Keeps ref =
      search (keeps_rules, new_aws_client-Keeps, get_secret_string-Keeps, string_in-Keeps) depth 10

  from-Keeps :
      (namespace : String) (source : Source) → Keeps P (connection_string_from w namespace source)
  unfolding connection_string_from
  from-Keeps namespace (kube_secret ref) = from_kube_secret-Keeps namespace ref
  from-Keeps namespace (aws_secret ref) = from_aws_secret-Keeps ref

  pub get_connection_string-Keeps : (db : Database) → Keeps P (get_connection_string w db)
  unfolding get_connection_string
  get_connection_string-Keeps db = search (keeps_rules, from-Keeps)
