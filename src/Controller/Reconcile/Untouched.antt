-- ===== src/Controller/Reconcile/Untouched.antt =====
-- Reconciliations of internal/controller/database_controller.go that leave the database server and
-- AWS alone.
use mathlib.Core.Path.{subst}
use database_user_operator.Base.{
  ◌≡◌, ◌≢◌, refl, sym, ap, ℕ, Bool, true, false, not, Option, none, some, Result, ok, err, String,
  [], ◌∷◌, ◌=ℕ◌, =ℕ_iff, if◌then◌else◌, ◌⊎◌, inl, inr, Bool-cases, arith,
}
use database_user_operator.World.{World, get_database, update_object}
use database_user_operator.Effects.{Calls, ◌>>=◌, ◌>>◌, attempt, perform, pure, proceed}
use database_user_operator.Effects.Keeps.{Keeps, Keeps-bind, Keeps-pure, Keeps-if}
use database_user_operator.Effects.Avoids.{
  Avoids, Keeps-perform, Kind, by_kind, kube, object, Ignores, Ignores-Avoids,
}
use database_user_operator.Effects.Avoids
use database_user_operator.Effects.Steps.{if-at}
use database_user_operator.Api.{Database}
use database_user_operator.Controller.State.{State, effect, current, event}
use database_user_operator.Controller.Calls.{Trace, effect-Trace}
use database_user_operator.Controller.Spec.{needs_reconciliation}
use database_user_operator.Controller.Delete.{
  has_finalizer, remove_finalizer, retains, release, reconcile_delete,
}
use database_user_operator.Controller.Reconcile.{
  minute, add_finalizer, reconcile_live, dispatch, reconcile_object, on_fetched, reconcile,
}
use database_user_operator.Controller.Reconcile.Calls.{event-Keeps, on_success-Trace}
use database_user_operator.Controller.Reconcile.Branches.{reconcile_live_ready}

-- Calls to a database server or to AWS: all but those to the Kubernetes API.
abbrev pub outside : Kind → Bool
outside Avoids.kube = false
outside Avoids.object = false
outside _ = true

abbrev pub Untouched : Calls → Type 0
Untouched = Avoids (by_kind outside)

-- All was created, for the generation of the object and in the current format of secrets.
abbrev Settled : Database → Type 0
Settled db =
    (db.status.user_created ≡ true)
    × (db.status.database_created ≡ true)
    × (db.status.secret_created ≡ true)
    × (db.status.observed_generation ≡ db.metadata.generation)
    × (db.status.secret_format_version ≡ "v2")

-- Nothing is left to do on the database server or in AWS, or not yet.
abbrev pub Idle : Database → Type 0
Idle db =
    (has_finalizer db.metadata.finalizers ≡ false)
    ⊎ (((db.metadata.deleted ≡ true) × (db.spec.retain_on_delete ≢ some false))
        ⊎ ((db.metadata.deleted ≡ false) × Settled db))

Settled-needs : (db : Database) → Settled db → needs_reconciliation db ≡ false
unfolding needs_reconciliation
Settled-needs db (user, database, secret, generation, version) =
    rw (user, database, secret, version)
      (ap (λ b. if not b then true else false)
        ((=ℕ_iff db.status.observed_generation db.metadata.generation).1 generation))

retains-unless : (retain : Option Bool) → retain ≢ some false → retains retain ≡ true
unfolding retains
retains-unless none h = refl
retains-unless (some true) h = refl
retains-unless (some false) h = absurd (h refl)

of_kind : (k : Kind) → outside k ≡ false → Ignores Untouched k
of_kind = Ignores-Avoids outside

module _ (w : World) where
  release-Untouched : (db : Database) → Keeps Untouched (release w db)
  unfolding release
  release-Untouched db =
      Keeps-bind _ _ (Keeps-perform w (update_object (remove_finalizer db)) (of_kind object refl))
        (λ _. Keeps-pure 0)

  reconcile_delete-Untouched :
      (db : Database) (calls : Calls)
      → (has_finalizer db.metadata.finalizers ≡ false) ⊎ (retains db.spec.retain_on_delete ≡ true)
      → Untouched calls
      → Untouched (reconcile_delete w db calls).1
  unfolding reconcile_delete pure
  reconcile_delete-Untouched db calls (inl none_left) a = rw none_left a
  reconcile_delete-Untouched db calls (inr retained) a =
      elim (Bool-cases (has_finalizer db.metadata.finalizers)) [
        | inl has ↦ rw (has, retained) ((release-Untouched db).after calls a)
        | inr none_left ↦ rw none_left a
      ]

  add-Untouched :
      (db : Database)
      → Keeps {A = ℕ} Untouched (do perform w (update_object (add_finalizer db)); pure minute)
  add-Untouched db =
      Keeps-bind _ _ (Keeps-perform w (update_object (add_finalizer db)) (of_kind object refl))
        (λ _. Keeps-pure minute)

  created-Untouched :
      (b : Bool)
      → Keeps {A = Unit} Untouched
          (if b then event w "Normal" "Created" "Database created" else pure tt)
  created-Untouched b =
      Keeps-if b _ _
        (event-Keeps w Untouched (of_kind kube refl) "Normal" "Created" "Database created")
        (Keeps-pure tt)

  -- An object that is alive, with and without its finalizer.
  live-Untouched :
      (s : State)
      → (has_finalizer s.db.metadata.finalizers ≡ false) ⊎ Settled s.db
      → Untouched s.calls
      → Trace Untouched
          ((if not (has_finalizer s.db.metadata.finalizers)
              then effect (do perform w (update_object (add_finalizer s.db)); pure minute)
              else reconcile_live w)
            s).1
  live-Untouched s h a = elim (Bool-cases (has_finalizer s.db.metadata.finalizers)) [
    | inl has ↦ elim h [
      | inl none_left ↦ absurd (ground arith)
      | inr settled ↦
          rw (has, reconcile_live_ready w s (Settled-needs s.db settled))
            ((on_success-Trace w Untouched (of_kind kube refl)).after s a)
    ]
    | inr none_left ↦ rw none_left ((effect-Trace Untouched _ (add-Untouched s.db)).after s a)
  ]

  dispatch-Untouched :
      (s : State) → Idle s.db → Untouched s.calls → Trace Untouched (dispatch w s).1
  unfolding dispatch current ◌>>=◌ effect
  dispatch-Untouched s idle a = elim (Bool-cases s.db.metadata.deleted) [
    | inl deleted ↦
        subst (λ r. Trace Untouched r.1) (sym (if-at s.db.metadata.deleted true _ _ s deleted))
          (reconcile_delete-Untouched s.db s.calls
            (elim idle [
              | inl none_left ↦ inl none_left
              | inr (inl (_, retained)) ↦ inr (retains-unless _ retained)
              | inr (inr (alive, _)) ↦ absurd (ground arith)
            ])
            a)
    | inr alive ↦
        subst (λ r. Trace Untouched r.1) (sym (if-at s.db.metadata.deleted false _ _ s alive))
          (live-Untouched s
            (elim idle [
              | inl none_left ↦ inl none_left
              | inr (inl (deleted, _)) ↦ absurd (ground arith)
              | inr (inr (_, settled)) ↦ inr settled
            ])
            a)
  ]

  then_dispatch-Untouched :
      (r : Result (Unit {0})) (s : State)
      → Idle s.db
      → Untouched s.calls
      → Trace Untouched (proceed r (λ _. dispatch w) s).1
  then_dispatch-Untouched (ok _) s idle a = dispatch-Untouched s idle a
  then_dispatch-Untouched (err e) s idle a = a

  reconcile_object-Untouched :
      (s : State) → Idle s.db → Untouched s.calls → Trace Untouched (reconcile_object w s).1
  unfolding reconcile_object current effect ◌>>=◌
  reconcile_object-Untouched s idle a =
      then_dispatch-Untouched _ _ idle
        ((created-Untouched (s.db.status.observed_generation =ℕ 0)).after s.calls a)

  -- Where the object that is fetched has not the finalizer, or is being deleted and its
  -- retainOnDelete is not false, or is not being deleted and its status says that all was created
  -- for its generation and in the current format: whatever the environment replies to all other
  -- calls, Reconcile calls no database server and no AWS service.
  pub reconcile-Untouched :
      (namespace name : String) (db : Database)
      → w.reply [] (get_database namespace name) ≡ ok db
      → Idle db
      → Untouched (reconcile w namespace name []).1
  unfolding reconcile on_fetched attempt perform ◌>>=◌
  reconcile-Untouched namespace name db fetched idle = rw fetched (
      reconcile_object-Untouched (record { db = db; calls = get_database namespace name ∷ [] }) idle
        (refl, tt))
