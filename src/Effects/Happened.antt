-- ===== src/Effects/Happened.antt =====
-- Calls that were made, with the replies to them.
use mathlib.Core.Path.{subst}
use database_user_operator.Base.{◌≡◌, refl, sym, [], ◌∷◌, ◌⊎◌, inl, inr, Result, ok, err}
use database_user_operator.World.{World, Call, Reply}
use database_user_operator.Effects.{Calls, perform}
use database_user_operator.Effects.Avoids.{Ignores, Kind}
use database_user_operator.Effects.Triples.{Post, Triple, Anything}

-- Some call, made behind some calls, has a property.
abbrev pub Happened : (Call → Calls → Type 0) → Calls → Type 0
Happened Q [] = ⊥
Happened Q (c ∷ calls) = Q c calls ⊎ Happened Q calls

-- What happened stays so.
pub Happened-Ignores : (Q : Call → Calls → Type 0) (k : Kind) → Ignores (Happened Q) k
Happened-Ignores Q k = record { more = λ c calls e h. inr h }

module _ (w : World) (c : Call) where
  -- The call was made last, with this reply.
  abbrev pub Made : Result (Reply c) → Calls → Type 0
  Made r made = (calls : Calls) × (made ≡ c ∷ calls) × (w.reply calls c ≡ r)

  perform-Post :
      (r : Result (Reply c)) (calls : Calls)
      → w.reply calls c ≡ r
      → Post (λ a. Made (ok a)) Anything (r, c ∷ calls)
  perform-Post (ok a) calls e = (calls, refl, e)
  perform-Post (err f) calls e = tt

  pub perform-Made : Triple Anything (perform w c) (λ a. Made (ok a)) Anything
  unfolding perform
  perform-Made = record { run = λ calls p. perform-Post (w.reply calls c) calls refl }

  pub Made-Happened :
      (Q : Call → Calls → Type 0) (r : Result (Reply c)) (made : Calls)
      → ((calls : Calls) → w.reply calls c ≡ r → Q c calls)
      → Made r made
      → Happened Q made
  Made-Happened Q r made q (calls, e, h) = subst (Happened Q) (sym e) (inl (q calls h))
