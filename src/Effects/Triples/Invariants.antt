-- ===== src/Effects/Triples/Invariants.antt =====
-- What actions keep, and what they reach and keep.
use mathlib.Core.Path.{subst}
use database_user_operator.Base.{◌≡◌, Result, ok, err}
use database_user_operator.Effects.{Action}
use database_user_operator.Effects.Keeps.{Keeps}
use database_user_operator.Effects.Triples.Core.{Post, Triple, Anything}

-- An action that keeps an invariant leaves it either way.
module _ {S A : Type 0} (Inv : S → Type 0) where
  kept-Post : (r : Result A) (s : S) → Inv s → Post (λ _. Inv) Inv (r, s)
  kept-Post (ok a) s h = h
  kept-Post (err e) s h = h

  pub Triple-Keeps : (m : Action S A) → Keeps Inv m → Triple Inv m (λ _. Inv) Inv
  Triple-Keeps m k = record { run = λ s h. kept-Post (m s).0 (m s).1 (k.after s h) }

  reached-Post : (r : Result A) (s : S) → Inv s → Post (λ _. Inv) (λ _. Unit {0}) (r, s)
  reached-Post (ok a) s h = h
  reached-Post (err e) s h = tt

  -- What an error leaves behind may be of no interest.
  pub Triple-reached : (m : Action S A) → Keeps Inv m → Triple Inv m (λ _. Inv) (λ _. Unit {0})
  Triple-reached m k = record { run = λ s h. reached-Post (m s).0 (m s).1 (k.after s h) }

  left-Post : (r : Result A) (s : S) → Post (λ _. Inv) Inv (r, s) → Inv s
  left-Post (ok a) s h = h
  left-Post (err e) s h = h

  pub Triple-left :
      {before : S → Type 0} (m : Action S A)
      → Triple before m (λ _. Inv) Inv
      → (s : S) → before s
      → Inv (m s).1
  Triple-left m t s p = left-Post (m s).0 (m s).1 (t.run s p)

  -- And the other way round.
  pub Keeps-Triple : (m : Action S A) → Triple Inv m (λ _. Inv) Inv → Keeps Inv m
  Keeps-Triple m t = record { after = Triple-left m t }

module _ {S A : Type 0} (value : A → S → Type 0) where
  both-Post :
      (Inv : S → Type 0) (r : Result A) (s : S)
      → Post value Anything (r, s)
      → Inv s
      → Post (λ a s. value a s × Inv s) Anything (r, s)
  both-Post Inv (ok a) s h i = (h, i)
  both-Post Inv (err e) s h i = tt

  -- What an action reaches, and what it keeps.
  pub Triple-both :
      (before Inv : S → Type 0) (m : Action S A)
      → Triple before m value Anything
      → Keeps Inv m
      → Triple (λ s. before s × Inv s) m (λ a s. value a s × Inv s) Anything
  Triple-both before Inv m t k = record {
    run = λ s h. both-Post Inv (m s).0 (m s).1 (t.run s h.0) (k.after s h.1);
  }

  -- A run that returned a value.
  pub Triple-ok :
      {before error : S → Type 0} (m : Action S A)
      → Triple before m value error
      → (a : A) (s s' : S) → before s
      → m s ≡ (ok a, s')
      → value a s'
  Triple-ok {error = error} m t a s s' p e = subst (Post value error) e (t.run s p)

-- What an action reaches while it keeps an invariant, also behind an error.
module _ {S A : Type 0} (value : A → S → Type 0) (Inv : S → Type 0) where
  along-Post :
      (r : Result A) (s : S)
      → Post value Anything (r, s)
      → Inv s
      → Post (λ a s. value a s × Inv s) Inv (r, s)
  along-Post (ok a) s h i = (h, i)
  along-Post (err e) s h i = i

  pub Triple-along :
      {before : S → Type 0} (m : Action S A)
      → Triple before m value Anything
      → Keeps Inv m
      → Triple (λ s. before s × Inv s) m (λ a s. value a s × Inv s) Inv
  Triple-along m t k = record {
    run = λ s h. along-Post (m s).0 (m s).1 (t.run s h.0) (k.after s h.1);
  }
