-- ===== src/Effects/Ensures.antt =====
-- What holds of the state behind an action that returned without an error.
use database_user_operator.Base.{Result, ok, err}
use database_user_operator.Effects.{Action, proceed, ◌>>=◌}

abbrev pub Ensures : {S A : Type 0} → (S → Type 0) → Result A × S → Type 0
Ensures Q (ok a, s) = Q s
Ensures Q (err e, s) = Unit

module _ {S A B : Type 0} (P Q : S → Type 0) where
  pub proceed-Ensures :
      (r : Result A) (s : S) (f : A → Action S B)
      → Ensures P (r, s)
      → ((a : A) (s' : S) → P s' → Ensures Q (f a s'))
      → Ensures Q (proceed r f s)
  proceed-Ensures (ok a) s f p h = h a s p
  proceed-Ensures (err e) s f p h = tt

  -- A step and the rest of the block behind it.
  pub bind-Ensures :
      (m : Action S A) (f : A → Action S B) (s : S)
      → Ensures P (m s)
      → ((a : A) (s' : S) → P s' → Ensures Q (f a s'))
      → Ensures Q ((m >>= f) s)
  unfolding ◌>>=◌
  bind-Ensures m f s p h = let (r, s') = m s in proceed-Ensures r s' f p h

module _ {S A : Type 0} (P Q : S → Type 0) where
  -- The state may be changed behind the action, in a way that the property survives.
  pub map-Ensures : (r : Result A) (s s' : S) → (P s → Q s') → Ensures P (r, s) → Ensures Q (r, s')
  map-Ensures (ok a) s s' h p = h p
  map-Ensures (err e) s s' h p = tt

pub always-Ensures :
    {S A : Type 0} → (Q : S → Type 0) (r : Result A) (s : S) → Q s → Ensures Q (r, s)
always-Ensures Q (ok a) s q = q
always-Ensures Q (err e) s q = tt
