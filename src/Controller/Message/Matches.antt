-- ===== src/Controller/Message/Matches.antt =====
-- The matches of the expression of normalizeErrorMessage, of internal/controller/database_controller.go,
-- in front of another text that begins with "RequestID: ".
use mathlib.Core.Option
use database_user_operator.Base.{
  ◌≡◌, refl, ap, inl, inr, ℕ, suc, ◌≤◌, Bool, true, false, ◌&&◌, not, Option, none, some, String,
  List, [], ◌∷◌, ◌++◌, ◌=ℕ◌, if◌then◌else◌, codes, length_text, Bool-cases, arith,
}
use database_user_operator.Controller.Message.{
  is_id_char, is_space, space_length, tail_length, id_length, some_id_length, match_length,
}

abbrev pub size : List ℕ → ℕ
size [] = 0
size (c ∷ s) = suc (size s)

pub size-codes : (s : String) → size (codes s) ≡ length_text s
unfolding codes length_text
size-codes String.[] = refl
size-codes (String.◌∷◌ c s) = ap suc (size-codes s)

-- No character of a text is the first one of "RequestID: ".
abbrev without_r : List ℕ → Bool
without_r [] = true
without_r (c ∷ s) = not (c =ℕ b'R') && without_r s

-- In front of "RequestID: ", a length is the same whatever follows, and ends there.
abbrev Settles : (List ℕ → ℕ) → List ℕ → Type 0
Settles f s =
    (u u' : List ℕ) → (f (s ++ (b'R' ∷ u)) ≡ f (s ++ (b'R' ∷ u'))) × (f (s ++ (b'R' ∷ u)) ≤ size s)

one_of : (b : Bool) (n : ℕ) → (if b then 1 else 0) ≤ suc n
one_of b n = ground arith

up : (m n : ℕ) → m ≤ n → suc m ≤ suc n
up m n h = omega arith

space_length-Settles : (s : List ℕ) → Settles space_length s
unfolding space_length is_space
space_length-Settles [] u u' = (refl, omega arith)
space_length-Settles (c ∷ s) u u' = (refl, one_of (is_space c) (size s))

tail_length-Settles : (s : List ℕ) → Settles tail_length s
unfolding tail_length
tail_length-Settles [] u u' = space_length-Settles [] u u'
tail_length-Settles (c ∷ s) u u' =
    let (same, within) = space_length-Settles s u u' in
    elim (Bool-cases (c =ℕ b',')) [
      | inl comma ↦ rw comma (ap suc same, up _ _ within)
      | inr other ↦ rw other (space_length-Settles (c ∷ s) u u')
    ]

id_length-Settles : (s : List ℕ) → Settles id_length s
unfolding id_length is_id_char
id_length-Settles [] u u' = tail_length-Settles [] u u'
id_length-Settles (c ∷ s) u u' =
    let (same, within) = id_length-Settles s u u' in
    elim (Bool-cases (is_id_char c)) [
      | inl hit ↦ rw hit (ap suc same, up _ _ within)
      | inr other ↦ rw other (tail_length-Settles (c ∷ s) u u')
    ]

abbrev pub Within : Option ℕ → ℕ → Type 0
Within none bound = Unit
Within (some n) bound = n ≤ bound

Within-suc : (o : Option ℕ) (bound : ℕ) → Within o bound → Within (Option.map suc o) (suc bound)
Within-suc none bound h = tt
Within-suc (some n) bound h = up n bound h

-- The same of a match, of which a part without its first character is left.
abbrev pub Matches : (List ℕ → Option ℕ) → List ℕ → Type 0
Matches f s =
    (u u' : List ℕ)
    → (f (s ++ (b'R' ∷ u)) ≡ f (s ++ (b'R' ∷ u'))) × Within (f (s ++ (b'R' ∷ u))) (size s)

some_id_length-Matches : (s : List ℕ) → Matches some_id_length s
unfolding some_id_length is_id_char
some_id_length-Matches [] u u' = (refl, tt)
some_id_length-Matches (c ∷ s) u u' =
    let (same, within) = id_length-Settles s u u' in
    elim (Bool-cases (is_id_char c)) [
      | inl hit ↦ rw hit (ap (λ n. some (suc n)) same, up _ _ within)
      | inr other ↦ rw other (refl, tt)
    ]

other_than_r : (p : ℕ) (b : Bool) → (not (p =ℕ b'R') && b) ≡ true → (b'R' =ℕ p) ≡ false
other_than_r p b h = ground arith

later_without_r : (p : ℕ) (b : Bool) → (not (p =ℕ b'R') && b) ≡ true → b ≡ true
later_without_r p b h = ground arith

match_length-Matches :
    (pattern s : List ℕ) → without_r pattern ≡ true → Matches (match_length pattern) s
unfolding match_length
match_length-Matches [] s h u u' = some_id_length-Matches s u u'
match_length-Matches (p ∷ pattern) [] h u u' = rw (other_than_r p (without_r pattern) h) (refl, tt)
match_length-Matches (p ∷ pattern) (c ∷ s) h u u' =
    let (same, within) =
      match_length-Matches pattern s (later_without_r p (without_r pattern) h) u u' in
    elim (Bool-cases (c =ℕ p)) [
      | inl hit ↦ rw hit (ap (Option.map suc) same, Within-suc _ _ within)
      | inr other ↦ rw other (refl, tt)
    ]

abbrev pub pattern : List ℕ
pattern = codes "RequestID: "

pub pattern-Matches : (c : ℕ) (s : List ℕ) → Matches (match_length pattern) (c ∷ s)
unfolding match_length codes
pattern-Matches c s u u' =
    let (same, within) = match_length-Matches (codes "equestID: ") s refl u u' in
    elim (Bool-cases (c =ℕ b'R')) [
      | inl hit ↦ rw hit (ap (Option.map suc) same, Within-suc _ _ within)
      | inr other ↦ rw other (refl, tt)
    ]
