-- ===== src/Base/Dictionary.antt =====
-- Maps of Go from texts to texts, as lists of their entries. A loop over a map takes the entries in
-- the order of the list, which Go leaves open.
use Prim.Native.String.{String}
use mathlib.Core.Path.{◌≡◌, refl}
use mathlib.Core.Bool.{Bool, true, false}
use mathlib.Core.Option.{Option, none, some}
use mathlib.Core.List.{List, [], ◌∷◌}
use native.Mathlib.Omega.{arith}
use text.Mathlib.TextEquality.{eq_iff}
use database_user_operator.Base.Tests.{◌==◌, if◌then◌else◌}

abbrev pub Dict {ℓ} : Type ℓ → Type ℓ
Dict V = List (String × V)

module _ {ℓ} {V : Type ℓ} where
  -- v, ok := m[key]
  unfoldable pub lookup : String → Dict V → Option V
  lookup key [] = none
  lookup key ((first, value) ∷ m) = if first == key then some value else lookup key m

  -- m[key] = value
  unfoldable pub insert : String → V → Dict V → Dict V
  insert key value [] = (key, value) ∷ []
  insert key value ((first, old) ∷ m) =
      let rest = insert key value m in
      if first == key then (first, value) ∷ m else (first, old) ∷ rest

  -- for k, v := range m { into[k] = v }
  unfoldable pub insert_all : Dict V → Dict V → Dict V
  unfolding insert
  insert_all [] into = into
  insert_all ((k, v) ∷ m) into = insert_all m (insert k v into)

  pub lookup-insert :
      (m : Dict V) (key : String) (value : V) (other : String)
      → lookup other (insert key value m) ≡ (if key == other then some value else lookup other m)
  unfolding lookup insert
  lookup-insert [] key value other = refl
  lookup-insert ((first, old) ∷ m) key value other =
      let same = eq_iff first key in
      ground (arith, lookup-insert m key value other, same, eq_iff first other, eq_iff key other)

  -- Some entry has this key.
  unfoldable pub has_key : String → Dict V → Bool
  has_key k [] = false
  has_key k ((j, v) ∷ m) = if j == k then true else has_key k m

  -- Every map of Go has each key once.
  unfoldable pub IsDistinct : Dict V → Type 0
  IsDistinct [] = Unit
  IsDistinct ((k, v) ∷ m) = (has_key k m ≡ false) × IsDistinct m

  pub has_key-insert :
      (m : Dict V) (key : String) (value : V) (other : String)
      → has_key other (insert key value m) ≡ (if key == other then true else has_key other m)
  unfolding has_key insert
  has_key-insert [] key value other = refl
  has_key-insert ((first, old) ∷ m) key value other =
      let same = eq_iff first key in
      ground (arith, has_key-insert m key value other, same, eq_iff first other, eq_iff key other)

  pub insert-IsDistinct :
      (k : String) (v : V) (m : Dict V) → IsDistinct m → IsDistinct (insert k v m)
  unfolding has_key insert IsDistinct
  insert-IsDistinct k v [] h = (refl, tt)
  insert-IsDistinct k v ((i, w) ∷ m) h =
      ground (arith, eq_iff i k, eq_iff k i, has_key-insert m k v i, insert-IsDistinct k v m)

  pub lookup-none : (k : String) (m : Dict V) → has_key k m ≡ false → lookup k m ≡ none
  unfolding lookup has_key
  lookup-none k [] h = refl
  lookup-none k ((j, v) ∷ m) h = ground (arith, lookup-none k m)

  -- A map that was copied over another: its entries first, then those of the other.
  pub lookup-insert_all :
      (k : String) (m into : Dict V)
      → IsDistinct m
      → lookup k (insert_all m into) ≡ (if has_key k m then lookup k m else lookup k into)
  unfolding insert_all lookup has_key IsDistinct
  lookup-insert_all k [] into h = refl
  lookup-insert_all k ((j, v) ∷ m) into h = ground (
    arith,
    eq_iff j k,
    lookup-insert into j v k,
    lookup-none k m,
    lookup-insert_all k m (insert j v into) h.1,
  )

  pub insert_all-IsDistinct : (m into : Dict V) → IsDistinct into → IsDistinct (insert_all m into)
  unfolding insert_all
  insert_all-IsDistinct [] into h = h
  insert_all-IsDistinct ((k, v) ∷ m) into h =
      insert_all-IsDistinct m (insert k v into) (insert-IsDistinct k v into h)
