-- ===== src/Effects/Keeps.antt =====
-- Invariants of actions: what holds of the state before an action holds behind it, whether it
-- returns or fails. One rule for each way to build an action.
use database_user_operator.Base.{Bool, true, false, String, if◌then◌else◌, GoError, Result, ok, err}
use database_user_operator.Effects.{
  Action, proceed, pure, fail, lift, attempt, wrap, finally, ◌>>=◌,
}

pub record Keeps {S A : Type 0} (Inv : S → Type 0) (m : Action S A) : Type 0 where
  pub after : (state : S) → Inv state → Inv (m state).1

module _ {S A : Type 0} {Inv : S → Type 0} where
  -- Actions that leave the state.
  pub Keeps-fail : (e : GoError) → Keeps Inv (fail {A = A} e)
  unfolding fail
  Keeps-fail e = record { after = λ state inv. inv }

  pub Keeps-lift : (result : Result A) → Keeps Inv (lift result)
  unfolding lift
  Keeps-lift result = record { after = λ state inv. inv }

  pub Keeps-pure : (value : A) → Keeps Inv (pure value)
  unfolding pure
  Keeps-pure value = record { after = λ state inv. inv }

  -- Actions that change only the result.
  pub Keeps-wrap : (prefix : String) (m : Action S A) → Keeps Inv m → Keeps Inv (wrap prefix m)
  unfolding wrap
  Keeps-wrap prefix m keeps = record { after = keeps.after }

  pub Keeps-attempt : (m : Action S A) → Keeps Inv m → Keeps Inv (attempt m)
  unfolding attempt
  Keeps-attempt m keeps = record { after = keeps.after }

  pub Keeps-if :
      (test : Bool) (m n : Action S A)
      → Keeps Inv m
      → Keeps Inv n
      → Keeps Inv (if test then m else n)
  Keeps-if true m n keeps _ = keeps
  Keeps-if false m n _ keeps = keeps

module _ {S A B : Type 0} {Inv : S → Type 0} where
  proceed-Keeps :
      (result : Result A) (rest : A → Action S B) (state : S)
      → ((value : A) → Keeps Inv (rest value))
      → Inv state
      → Inv (proceed result rest state).1
  proceed-Keeps (ok value) rest state keeps inv = (keeps value).after state inv
  proceed-Keeps (err e) rest state keeps inv = inv

  pub Keeps-bind :
      (m : Action S A) (rest : A → Action S B)
      → Keeps Inv m
      → ((value : A) → Keeps Inv (rest value))
      → Keeps Inv (m >>= rest)
  unfolding ◌>>=◌
  Keeps-bind m rest first keeps = record {
    after = λ state inv. proceed-Keeps (m state).0 rest (m state).1 keeps (first.after state inv);
  }

  pub Keeps-finally :
      (m : Action S A) (n : Action S B) → Keeps Inv m → Keeps Inv n → Keeps Inv (finally m n)
  unfolding finally
  Keeps-finally m n first last = record {
    after = λ state inv. last.after (m state).1 (first.after state inv);
  }

pub ruleset keeps_rules = (
  Keeps-bind, Keeps-if, Keeps-wrap, Keeps-attempt, Keeps-finally, Keeps-lift, Keeps-fail,
  Keeps-pure,
)
