-- ===== src/Effects/Steps.antt =====
-- Equations for single steps of a block.
use database_user_operator.Base.{◌≡◌, refl, Bool, if◌then◌else◌, Result, ok, err}
use database_user_operator.Effects.{Action, proceed, pure}

-- A test whose value is known.
pub if-at :
    {S A : Type 0}
    → (b c : Bool) (m n : Action S A) (t : S) → b ≡ c
    → (if b then m else n) t ≡ (if c then m else n) t
if-at b c m n t h = rw h

-- A last step that only returns a value leaves the state.
pub then_pure :
    {S A B : Type 0} → (r : Result B) (t : S) (a : A) → (proceed r (λ _. pure a) t).1 ≡ t
unfolding pure
then_pure (ok _) t a = refl
then_pure (err _) t a = refl
