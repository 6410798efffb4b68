-- ===== src/Base/Cuts.antt =====
-- Positions in texts that are put together: the first occurrence of a separator stands behind a text
-- in which its first character does not occur.
use Prim.Native.Nat.{ℕ, suc, ◌+◌}
use Prim.Native.Char.{Char, code}
use Prim.Native.String.{String, ◌++◌ as ◌<>◌}
use Prim.Native.String.append
use mathlib.Core.Path.{◌≡◌, refl, sym, ap, ◌∙◌}
use mathlib.Core.Bool.{Bool, true, false, ◌&&◌, not}
use mathlib.Core.Option
use mathlib.Core.Option.{Option, none, some}
use mathlib.Core.List.{List, [], ◌∷◌, ◌++◌}
use native.Mathlib.Omega.{arith}
use database_user_operator.Base.Tests.{◌=ℕ◌}
use database_user_operator.Base.Text.{
  codes, codes-<>, has_prefix, starts_with, index, length_text, take_text, drop_text,
}

-- No character of the text has this code.
unfoldable pub lacks : String → ℕ → Bool
lacks String.[] n = true
lacks (String.◌∷◌ c s) n = not (code c =ℕ n) && lacks s n

split : (a b : Bool) → (not a && b) ≡ true → (a ≡ false) × (b ≡ true)
split false b h = (refl, h)
split true b h = cc

join : (a b : Bool) → a ≡ false → b ≡ true → (not a && b) ≡ true
join a b h k = rw (h, k) refl

pub take_text-<> : (s t : String) → take_text (length_text s) (s <> t) ≡ s
unfolding take_text length_text
take_text-<> String.[] t = refl
take_text-<> (String.◌∷◌ c s) t =
    ap (take_text (suc (length_text s))) (append.cons c s t) ∙ ap (String.◌∷◌ c) (take_text-<> s t)

pub drop_text-<> : (s t : String) → drop_text (length_text s) (s <> t) ≡ t
unfolding drop_text length_text
drop_text-<> String.[] t = append.nil t
drop_text-<> (String.◌∷◌ c s) t =
    ap (drop_text (suc (length_text s))) (append.cons c s t) ∙ drop_text-<> s t

has_prefix_refl : (s t : List ℕ) → has_prefix (s ++ t) s ≡ true
unfolding has_prefix
has_prefix_refl [] t = refl
has_prefix_refl (a ∷ s) t = ground (arith, has_prefix_refl s t)

starts_with-<> : (s t : String) → starts_with (s <> t) s ≡ true
unfolding starts_with
starts_with-<> s t =
    ap (λ l. has_prefix l (codes s)) (codes-<> s t) ∙ has_prefix_refl (codes s) (codes t)

-- A text that begins with another character.
starts_with-other :
    (d c : Char) (s rest : String)
    → (code d =ℕ code c) ≡ false
    → starts_with (String.◌∷◌ d s) (String.◌∷◌ c rest) ≡ false
unfolding starts_with codes has_prefix
starts_with-other d c s rest h = ground (arith, h)

index-here : (s p : String) → starts_with s p ≡ true → index s p ≡ some 0
unfolding index
index-here String.[] p h = rw h refl
index-here (String.◌∷◌ c s) p h = rw h refl

index-later :
    (d : Char) (s p : String)
    → starts_with (String.◌∷◌ d s) p ≡ false
    → index (String.◌∷◌ d s) p ≡ Option.map suc (index s p)
unfolding index
index-later d s p h = rw h refl

-- The separator is found behind a text that lacks its first character.
pub index-<> :
    (s : String) (c : Char) (rest t : String)
    → lacks s (code c) ≡ true
    → index (s <> (String.◌∷◌ c rest <> t)) (String.◌∷◌ c rest) ≡ some (length_text s)
unfolding lacks length_text
index-<> String.[] c rest t h =
    ap (λ x. index x (String.◌∷◌ c rest)) (append.nil (String.◌∷◌ c rest <> t))
    ∙ index-here _ _ (starts_with-<> (String.◌∷◌ c rest) t)
index-<> (String.◌∷◌ d s) c rest t h =
    ap (λ x. index x (String.◌∷◌ c rest)) (append.cons d s (String.◌∷◌ c rest <> t))
    ∙ index-later d (s <> (String.◌∷◌ c rest <> t)) (String.◌∷◌ c rest)
        (starts_with-other d c (s <> (String.◌∷◌ c rest <> t)) rest (split _ _ h).0)
    ∙ ap (Option.map suc) (index-<> s c rest t (split _ _ h).1)

pub lacks-<> :
    (s t : String) (n : ℕ) → lacks s n ≡ true → lacks t n ≡ true → lacks (s <> t) n ≡ true
unfolding lacks
lacks-<> String.[] t n hs ht = ap (λ x. lacks x n) (append.nil t) ∙ ht
lacks-<> (String.◌∷◌ c s) t n hs ht =
    ap (λ x. lacks x n) (append.cons c s t)
    ∙ join _ _ (split _ _ hs).0 (lacks-<> s t n (split _ _ hs).1 ht)

pub append_assoc : (s t u : String) → (s <> t) <> u ≡ s <> (t <> u)
append_assoc String.[] t u = ap (λ x. x <> u) (append.nil t) ∙ sym (append.nil (t <> u))
append_assoc (String.◌∷◌ c s) t u =
    ap (λ x. x <> u) (append.cons c s t)
    ∙ append.cons c (s <> t) u
    ∙ ap (String.◌∷◌ c) (append_assoc s t u)
    ∙ sym (append.cons c s (t <> u))

pub length_text-<> : (s t : String) → length_text (s <> t) ≡ length_text s + length_text t
unfolding length_text
length_text-<> String.[] t = omega (arith, ap length_text (append.nil t))
length_text-<> (String.◌∷◌ c s) t =
    omega (arith, ap length_text (append.cons c s t), length_text-<> s t)
