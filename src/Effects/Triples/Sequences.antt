-- ===== src/Effects/Triples/Sequences.antt =====
-- Actions one behind the other.
use database_user_operator.Base.{Result, ok, err}
use database_user_operator.Effects.{Action, proceed, finally, ◌>>=◌}
use database_user_operator.Effects.Keeps.{Keeps}
use database_user_operator.Effects.Triples.Core.{Post, Triple, Anything}
use database_user_operator.Effects.Triples.Invariants.{Triple-Keeps, Triple-reached, Keeps-Triple}

module _ {S A B : Type 0} (middle : A → S → Type 0) (value : B → S → Type 0)
    (error : S → Type 0) where
  proceed-Post :
      (r : Result A) (f : A → Action S B) (s : S)
      → Post middle error (r, s)
      → ((a : A) → Triple (middle a) (f a) value error)
      → Post value error (proceed r f s)
  proceed-Post (ok a) f s h t = (t a).run s h
  proceed-Post (err e) f s h t = h

  pub Triple-bind :
      {before : S → Type 0} (m : Action S A) (f : A → Action S B)
      → Triple before m middle error
      → ((a : A) → Triple (middle a) (f a) value error)
      → Triple before (m >>= f) value error
  unfolding ◌>>=◌
  Triple-bind m f h t = record { run = λ s p. proceed-Post (m s).0 f (m s).1 (h.run s p) t }

module _ {S B : Type 0} {A : Type 0} (value : B → S → Type 0) where
  -- A step of which nothing is to be known.
  pub Triple-skip :
      (m : Action S A) (f : A → Action S B)
      → ((a : A) → Triple Anything (f a) value Anything)
      → Triple Anything (m >>= f) value Anything
  Triple-skip m f t =
      Triple-bind (λ _. Anything) value Anything m f
        (Triple-Keeps Anything m (record { after = λ s h. tt })) t

-- A step that keeps what is known, and whose error is of no interest.
module _ {S A B : Type 0} (known : S → Type 0) (value : B → S → Type 0) where
  pub Triple-then :
      (m : Action S A) (f : A → Action S B)
      → Keeps known m
      → ((a : A) → Triple known (f a) value Anything)
      → Triple known (m >>= f) value Anything
  Triple-then m f k t = Triple-bind (λ _. known) value Anything m f (Triple-reached known m k) t

module _ {S A : Type 0} (during behind : S → Type 0) where
  moved-Post :
      (r : Result A) (s s' : S)
      → (during s → behind s')
      → Post (λ _. during) during (r, s)
      → Post (λ _. behind) behind (r, s')
  moved-Post (ok a) s s' f h = f h
  moved-Post (err e) s s' f h = f h

  pub Triple-finally :
      {B : Type 0} {before : S → Type 0} (m : Action S A) (n : Action S B)
      → Triple before m (λ _. during) during
      → ((s : S) → during s → behind (n s).1)
      → Triple before (finally m n) (λ _. behind) behind
  unfolding finally
  Triple-finally m n h k = record {
    run = λ s p. moved-Post (m s).0 (m s).1 (n (m s).1).1 (k (m s).1) (h.run s p);
  }

-- An invariant is kept by a step that makes it up to the end of a block.
module _ {S A B : Type 0} {Inv : S → Type 0} (middle : A → S → Type 0) where
  pub Keeps-before :
      (m : Action S A) (f : A → Action S B)
      → Triple Inv m middle Inv
      → ((a : A) → Triple (middle a) (f a) (λ _. Inv) Inv)
      → Keeps Inv (m >>= f)
  Keeps-before m f h t = Keeps-Triple Inv (m >>= f) (Triple-bind middle (λ _. Inv) Inv m f h t)

-- What a value leaves behind, and then the last step of a block with a deferred call.
module _ {S A : Type 0} (value value' : A → S → Type 0) where
  deferred-Post :
      (r : Result A) (s s' : S)
      → ((a : A) → value a s → value' a s')
      → Post value Anything (r, s)
      → Post value' Anything (r, s')
  deferred-Post (ok a) s s' f h = f a h
  deferred-Post (err e) s s' f h = tt

  pub Triple-deferred :
      {B : Type 0} {before : S → Type 0} (m : Action S A) (n : Action S B)
      → Triple before m value Anything
      → ((a : A) (s : S) → value a s → value' a (n s).1)
      → Triple before (finally m n) value' Anything
  unfolding finally
  Triple-deferred m n t f = record {
    run = λ s p. deferred-Post (m s).0 (m s).1 (n (m s).1).1 (λ a. f a (m s).1) (t.run s p);
  }
