-- ===== src/Effects/Fails.antt =====
-- Actions that return an error, whatever the state is.
use database_user_operator.Base.{
  ◌≡◌, refl, Bool, true, false, if◌then◌else◌, GoError, Result, ok, err,
}
use database_user_operator.Effects.{Action, proceed, fail, finally, ◌>>=◌}

abbrev pub is_err : {A : Type 0} → Result A → Bool
is_err (ok a) = false
is_err (err e) = true

pub record Fails {S A : Type 0} (m : Action S A) : Type 0 where
  pub after : (s : S) → is_err (m s).0 ≡ true

pub fails : {S A : Type 0} → (e : GoError) → Fails {S = S} {A = A} (fail e)
unfolding fail
fails e = record { after = λ s. refl }

pub if-Fails :
    {S A : Type 0} → (b : Bool) (m n : Action S A) → Fails m → Fails n → Fails (if b then m else n)
if-Fails true m n hm hn = hm
if-Fails false m n hm hn = hn

module _ {S A B : Type 0} where
  pub finally-Fails : (m : Action S A) (n : Action S B) → Fails m → Fails (finally m n)
  unfolding finally
  finally-Fails m n h = record { after = h.after }

  proceed-Fails :
      (r : Result A) (f : A → Action S B) (s : S)
      → ((a : A) → Fails (f a))
      → is_err (proceed r f s).0 ≡ true
  proceed-Fails (ok a) f s h = (h a).after s
  proceed-Fails (err e) f s h = refl

  -- Either the first step fails, or the rest does.
  pub bind-Fails : (m : Action S A) (f : A → Action S B) → ((a : A) → Fails (f a)) → Fails (m >>= f)
  unfolding ◌>>=◌
  bind-Fails m f h = record { after = λ s. proceed-Fails (m s).0 f (m s).1 h }
