-- ===== src/Controller/Message.antt =====
-- normalizeErrorMessage of internal/controller/database_controller.go, with the regular expression
-- `RequestID: [a-f0-9-]+,?\s?` as a matcher.
pub mod Matches
pub mod RequestIds
use mathlib.Core.Option
use database_user_operator.Base.{
  ℕ, zero, suc, Bool, ◌&&◌, ◌||◌, Option, none, some, List, [], ◌∷◌, leb, ◌=ℕ◌, if◌then◌else◌, Char,
  code, codes, String,
}

-- [a-f0-9-]
unfoldable pub is_id_char : ℕ → Bool
is_id_char c = (leb b'a' c && leb c b'f') || (leb b'0' c && leb c b'9') || (c =ℕ b'-')

-- \s
unfoldable pub is_space : ℕ → Bool
is_space c = (c =ℕ 9) || (c =ℕ 10) || (c =ℕ 12) || (c =ℕ 13) || (c =ℕ b' ')

-- How many characters `,?\s?` takes.
unfoldable pub space_length : List ℕ → ℕ
unfolding is_space
space_length [] = 0
space_length (c ∷ s) = if is_space c then 1 else 0

unfoldable pub tail_length : List ℕ → ℕ
unfolding space_length
tail_length [] = 0
tail_length (c ∷ s) = if c =ℕ b',' then suc (space_length s) else space_length (c ∷ s)

-- How many characters `[a-f0-9-]*,?\s?` takes.
unfoldable pub id_length : List ℕ → ℕ
unfolding is_id_char tail_length
id_length [] = 0
id_length (c ∷ s) =
    let more = suc (id_length s) in if is_id_char c then more else tail_length (c ∷ s)

-- The same with at least one character of the class, or no match.
unfoldable pub some_id_length : List ℕ → Option ℕ
unfolding id_length
some_id_length [] = none
some_id_length (c ∷ s) = if is_id_char c then some (suc (id_length s)) else none

-- The length of the match of the whole expression at the front of a text. The argument before it is
-- what is left of "RequestID: ".
unfoldable pub match_length : List ℕ → List ℕ → Option ℕ
unfolding some_id_length
match_length [] s = some_id_length s
match_length (p ∷ ps) [] = none
match_length (p ∷ ps) (c ∷ s) =
    let more = Option.map suc (match_length ps s) in if c =ℕ p then more else none

-- re.ReplaceAllString(s, ""): the number counts the characters of a match that are still to skip.
unfoldable pub remove_ids : ℕ → String → String
unfolding match_length codes
remove_ids skip String.[] = ""
remove_ids (suc skip) (String.◌∷◌ c s) = remove_ids skip s
remove_ids zero (String.◌∷◌ c s) = elim (match_length (codes "RequestID: ") (code c ∷ codes s)) [
  | none ↦ String.◌∷◌ c (remove_ids zero s)
  | some zero ↦ String.◌∷◌ c (remove_ids zero s)
  | some (suc n) ↦ remove_ids n s
]

-- A character in front of a text that is trimmed already.
unfoldable pub trim_onto : Char → String → String
trim_onto c String.[] = if (code c =ℕ b',') || (code c =ℕ b' ') then "" else String.◌∷◌ c String.[]
trim_onto c (String.◌∷◌ d s) = String.◌∷◌ c (String.◌∷◌ d s)

-- strings.TrimRight(s, ", ")
unfoldable pub trim_right : String → String
unfolding trim_onto
trim_right String.[] = ""
trim_right (String.◌∷◌ c s) = trim_onto c (trim_right s)

unfoldable pub normalize_error_message : String → String
unfolding remove_ids trim_right
normalize_error_message s = trim_right (remove_ids 0 s)
