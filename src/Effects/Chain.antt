-- ===== src/Effects/Chain.antt =====
-- Calls that are made one behind the other, up to the first that is refused.
use database_user_operator.Base.{
  ◌≡◌, refl, sym, ap, true, false, String, List, [], ◌∷◌, ◌++◌, ◌⊎◌, inl, Result, ok, err,
}
use database_user_operator.World.{World, Call, Reply}
use database_user_operator.Effects.{Calls, perform, wrap}
use database_user_operator.Effects.Fails.{is_err}
use database_user_operator.Effects.Triples.{Post, Triple}

module _ (w : World) (start : Calls) where
  -- These calls, the newest first, were accepted behind the calls of the start.
  abbrev pub AllAccepted : List Call → Type 0
  AllAccepted [] = Unit
  AllAccepted (c ∷ made) = (is_err (w.reply (made ++ start) c) ≡ false) × AllAccepted made

  -- These calls were made and accepted, and no others.
  abbrev pub Through : List Call → Calls → Type 0
  Through made calls = (calls ≡ made ++ start) × AllAccepted made

  -- One of these calls was refused; those before it were accepted, and none was made after it.
  abbrev pub StoppedAt : List Call → Calls → Type 0
  StoppedAt [] calls = ⊥
  StoppedAt (c ∷ made) calls =
      ((calls ≡ c ∷ (made ++ start))
        × (is_err (w.reply (made ++ start) c) ≡ true)
        × AllAccepted made)
      ⊎ StoppedAt made calls

  module _ (error : Calls → Type 0) (made : List Call) (c : Call)
      (stopped : (calls : Calls) → StoppedAt (c ∷ made) calls → error calls) where
    called-Post :
        (prefix : String) (r : Result (Reply c)) (calls : Calls)
        → w.reply calls c ≡ r
        → Through made calls
        → Post (λ _. Through (c ∷ made)) error ((wrap prefix (λ s. (r, s))) (c ∷ calls))
    unfolding wrap
    called-Post prefix (ok a) calls e (same, accepted) =
        (ap (◌∷◌ c) same, (rw (sym same) (ap is_err e), accepted))
    called-Post prefix (err f) calls e (same, accepted) =
        stopped (c ∷ calls) (inl (ap (◌∷◌ c) same, rw (sym same) (ap is_err e), accepted))

    pub call-Triple :
        (prefix : String)
        → Triple (Through made) (wrap prefix (perform w c)) (λ _. Through (c ∷ made)) error
    unfolding wrap perform
    call-Triple prefix = record {
      run = λ calls h. called-Post prefix (w.reply calls c) calls refl h;
    }
