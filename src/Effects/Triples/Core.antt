-- ===== src/Effects/Triples/Core.antt =====
-- What an action leaves behind, apart for a value and for an error, and the rules for single actions.
use database_user_operator.Base.{Bool, true, false, String, if◌then◌else◌, GoError, Result, ok, err}
use database_user_operator.Effects.{Action, add_prefix, pure, fail, attempt, wrap}

-- `value` holds behind a value and `error` behind an error.
abbrev pub Post : {S A : Type 0} → (A → S → Type 0) → (S → Type 0) → Result A × S → Type 0
Post value error (ok a, s) = value a s
Post value error (err e, s) = error s

pub record Triple {S A : Type 0} (before : S → Type 0) (m : Action S A) (value : A → S → Type 0)
    (error : S → Type 0) : Type 0 where
  pub run : (s : S) → before s → Post value error (m s)

module _ {S A : Type 0} (value : A → S → Type 0) (error : S → Type 0) where
  pub Triple-pure :
      {before : S → Type 0} (a : A)
      → ((s : S) → before s → value a s)
      → Triple before (pure a) value error
  unfolding pure
  Triple-pure a h = record { run = h }

  pub Triple-fail :
      {before : S → Type 0} (e : GoError)
      → ((s : S) → before s → error s)
      → Triple before (fail e) value error
  unfolding fail
  Triple-fail e h = record { run = h }

  pub Triple-if :
      {before : S → Type 0} (b : Bool) (m n : Action S A)
      → Triple before m value error
      → Triple before n value error
      → Triple before (if b then m else n) value error
  Triple-if true m n hm hn = hm
  Triple-if false m n hm hn = hn

  weaker-Post :
      (value' : A → S → Type 0) (r : Result A) (s : S)
      → ((a : A) (s : S) → value a s → value' a s)
      → Post value error (r, s)
      → Post value' error (r, s)
  weaker-Post value' (ok a) s f h = f a s h
  weaker-Post value' (err e) s f h = h

  pub Triple-weaken :
      {before : S → Type 0} (value' : A → S → Type 0) (m : Action S A)
      → Triple before m value error
      → ((a : A) (s : S) → value a s → value' a s)
      → Triple before m value' error
  Triple-weaken value' m t f = record {
    run = λ s p. weaker-Post value' (m s).0 (m s).1 f (t.run s p);
  }

  wrapped-Post :
      (prefix : String) (r : Result A) (s : S)
      → Post value error (r, s)
      → Post value error (add_prefix prefix r, s)
  wrapped-Post prefix (ok a) s h = h
  wrapped-Post prefix (err e) s h = h

  pub Triple-wrap :
      {before : S → Type 0} (prefix : String) (m : Action S A)
      → Triple before m value error
      → Triple before (wrap prefix m) value error
  unfolding wrap
  Triple-wrap prefix m h = record { run = λ s p. wrapped-Post prefix (m s).0 (m s).1 (h.run s p) }

-- Nothing is known.
abbrev pub Anything : {S : Type 0} → S → Type 0
Anything s = Unit {0}

-- The result of a step whose error is looked at, with what is left behind.
module _ {S A : Type 0} (value : A → S → Type 0) (error : S → Type 0) where
  pub Triple-attempt :
      {before : S → Type 0} (m : Action S A)
      → Triple before m value error
      → Triple before (attempt m) (λ r s. Post value error (r, s)) error
  unfolding attempt
  Triple-attempt m h = record { run = h.run }

-- The rule of consequence.
module _ {S A : Type 0} (value : A → S → Type 0) (error : S → Type 0) where
  adapted-Post :
      (value' : A → S → Type 0) (error' : S → Type 0) (r : Result A) (s : S)
      → ((a : A) (s : S) → value a s → value' a s)
      → ((s : S) → error s → error' s)
      → Post value error (r, s)
      → Post value' error' (r, s)
  adapted-Post value' error' (ok a) s f g h = f a s h
  adapted-Post value' error' (err e) s f g h = g s h

  pub Triple-adapt :
      {before before' : S → Type 0} (value' : A → S → Type 0) (error' : S → Type 0) (m : Action S A)
      → ((s : S) → before' s → before s)
      → Triple before m value error
      → ((a : A) (s : S) → value a s → value' a s)
      → ((s : S) → error s → error' s)
      → Triple before' m value' error'
  Triple-adapt value' error' m b t f g = record {
    run = λ s p. adapted-Post value' error' (m s).0 (m s).1 f g (t.run s (b s p));
  }

  pub Triple-given :
      {before before' : S → Type 0} (m : Action S A)
      → ((s : S) → before' s → before s)
      → Triple before m value error
      → Triple before' m value error
  Triple-given m b t = record { run = λ s p. t.run s (b s p) }

  -- What is known of no state.
  pub Triple-fact :
      {before : S → Type 0} (F : Type 0) (m : Action S A)
      → (F → Triple before m value error)
      → Triple (λ s. F × before s) m value error
  Triple-fact F m t = record { run = λ s h. (t h.0).run s h.1 }
