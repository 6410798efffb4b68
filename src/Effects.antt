-- ===== src/Effects.antt =====
-- Actions: functions that change a state and return a value or an error. The state comes back
-- beside an error too, since calls that were made and fields that were set stay so.
pub mod Keeps
pub mod Avoids
pub mod Triples
pub mod Happened
pub mod Steps
pub mod Chain
pub mod Fails
pub mod Ensures
use database_user_operator.Base.{
  Bool, true, false, String, List, [], ◌∷◌, if◌then◌else◌, GoError, wrapped, Result, ok, err,
}
use database_user_operator.World.{World, Call, Reply}

abbrev pub Action : Type 0 → Type 0 → Type 0
Action S A = S → Result A × S

-- The actions that only make calls; their state is the calls that were made, the newest first.
abbrev pub Calls : Type 0
Calls = List Call

abbrev pub Effect : Type 0 → Type 0
Effect = Action Calls

-- The rest of a block, behind a step with this result.
abbrev pub proceed : {S A B : Type 0} → Result A → (A → Action S B) → Action S B
proceed (ok a) f s = f a s
proceed (err e) f s = (err e, s)

-- A result with the prefix that fmt.Errorf("<prefix>: %w", err) gives to its error.
abbrev pub add_prefix : {A : Type 0} → String → Result A → Result A
add_prefix prefix (ok a) = ok a
add_prefix prefix (err e) = err (wrapped prefix e)

-- return a, nil
unfoldable pub pure : {S A : Type 0} → A → Action S A
pure a s = (ok a, s)

-- return err
unfoldable pub fail : {S A : Type 0} → GoError → Action S A
fail e s = (err e, s)

-- A function of the program that makes no call.
unfoldable pub lift : {S A : Type 0} → Result A → Action S A
lift r s = (r, s)

-- A step whose error is looked at, not returned.
unfoldable pub attempt : {S A : Type 0} → Action S A → Action S (Result A)
attempt m s = let (r, s') = m s in (ok r, s')

-- A step whose error is returned with a prefix.
unfoldable pub wrap : {S A : Type 0} → String → Action S A → Action S A
wrap prefix m s = let (r, s') = m s in (add_prefix prefix r, s')

-- defer: the second action runs behind the first, whatever its result, and its error is only logged.
unfoldable pub finally : {S A B : Type 0} → Action S A → Action S B → Action S A
finally m cleanup s = let (r, s') = m s in (r, (cleanup s').1)

infixl 10 ◌>>=◌ ◌>>◌
unfoldable pub ◌>>=◌ : {S A B : Type 0} → Action S A → (A → Action S B) → Action S B
unfolding pure fail lift attempt wrap
◌>>=◌ m f s = let (r, s') = m s in proceed r f s'

abbrev pub ◌>>◌ : {S A B : Type 0} → Action S A → Action S B → Action S B
m >> n = m >>= λ _. n

-- One call of the environment.
unfoldable pub perform : World → (c : Call) → Effect (Reply c)
perform w c calls = (w.reply calls c, c ∷ calls)
