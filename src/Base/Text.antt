-- ===== src/Base/Text.antt =====
-- What the program uses of Go's package strings, on the characters of a text. Every separator
-- that the program looks for is ASCII, so positions in characters cut where positions in bytes do.
use Prim.Native.Nat.{ℕ, zero, suc, ◌+◌, ◌-◌}
use Prim.Native.String.{char_at}
use mathlib.Core.Option
use mathlib.Core.Option.{Option, none, some}
use Prim.Native.Char.{code}
use Prim.Native.String.{String}
use Prim.Native.String.{◌++◌ as ◌<>◌}
use Prim.Native.String.append
use mathlib.Core.Path.{◌≡◌, refl, ap, ◌∙◌}
use mathlib.Core.Bool.{Bool, true, false, ◌&&◌, ◌||◌}
use mathlib.Core.List.{List, [], ◌∷◌, ◌++◌, map}
use database_user_operator.Base.Tests.{leb, ◌=ℕ◌, if◌then◌else◌}

-- The code points of a text.
unfoldable pub codes : String → List ℕ
codes String.[] = []
codes (String.◌∷◌ c s) = code c ∷ codes s

-- unicode.ToLower on one code point, as far as the program observes it: it only compares the
-- result with ASCII words. Two code points outside ASCII have an ASCII lower case, the Kelvin sign
-- and the capital I with a dot.
unfoldable pub lower_code : ℕ → ℕ
lower_code c =
    if leb b'A' c && leb c b'Z'
    then c + 32
    else if c =ℕ 0x212a
    then b'k'
    else if c =ℕ 0x130
    then b'i'
    else c

-- strings.ToLower
unfoldable pub to_lower : String → List ℕ
unfolding codes lower_code
to_lower s = map lower_code (codes s)

-- strings.HasPrefix(s, prefix)
unfoldable pub has_prefix : List ℕ → List ℕ → Bool
has_prefix s [] = true
has_prefix [] (p ∷ ps) = false
has_prefix (c ∷ s) (p ∷ ps) = (c =ℕ p) && has_prefix s ps

-- strings.Contains(s, sub)
unfoldable pub contains : List ℕ → List ℕ → Bool
unfolding has_prefix
contains [] sub = has_prefix [] sub
contains (c ∷ s) sub = has_prefix (c ∷ s) sub || contains s sub

-- A chain of strings.Contains joined by ||.
unfoldable pub contains_any : List ℕ → List String → Bool
unfolding contains codes
contains_any s [] = false
contains_any s (w ∷ ws) = contains s (codes w) || contains_any s ws

-- The texts are the same, character by character.
unfoldable pub same : List ℕ → List ℕ → Bool
same [] [] = true
same (a ∷ s) (b ∷ t) = (a =ℕ b) && same s t
same _ _ = false

-- strings.ReplaceAll(s, old, new) for an `old` of one character.
unfoldable pub replace_all : String → ℕ → String → String
replace_all String.[] old new = ""
replace_all (String.◌∷◌ c s) old new =
    let rest = replace_all s old new in if code c =ℕ old then new <> rest else String.◌∷◌ c rest

-- len(s), in characters.
unfoldable pub length_text : String → ℕ
length_text String.[] = 0
length_text (String.◌∷◌ c s) = suc (length_text s)

-- s[:n]
unfoldable pub take_text : ℕ → String → String
take_text zero s = ""
take_text (suc n) String.[] = ""
take_text (suc n) (String.◌∷◌ c s) = String.◌∷◌ c (take_text n s)

-- s[n:]
unfoldable pub drop_text : ℕ → String → String
drop_text zero s = s
drop_text (suc n) String.[] = ""
drop_text (suc n) (String.◌∷◌ c s) = drop_text n s

-- strings.HasPrefix, on texts
unfoldable pub starts_with : String → String → Bool
unfolding has_prefix codes
starts_with s p = has_prefix (codes s) (codes p)

-- strings.Index(s, sub), with `none` for -1
unfoldable pub index : String → String → Option ℕ
unfolding starts_with
index String.[] sub = if starts_with String.[] sub then some 0 else none
index (String.◌∷◌ c s) sub =
    let later = Option.map suc (index s sub) in
    if starts_with (String.◌∷◌ c s) sub then some 0 else later

-- strings.TrimPrefix(s, p)
unfoldable pub trim_prefix : String → String → String
unfolding starts_with length_text drop_text
trim_prefix s p = if starts_with s p then drop_text (length_text p) s else s

-- strings.Join(parts, separator)
unfoldable pub join : List String → String → String
join [] separator = ""
join (s ∷ []) separator = s
join (s ∷ t ∷ parts) separator = s <> (separator <> join (t ∷ parts) separator)

-- strings.ToUpper, which the program applies to the name of an engine: ASCII letters are raised.
unfoldable pub to_upper : String → String
to_upper String.[] = ""
to_upper (String.◌∷◌ c s) =
    let raised = char_at "ABCDEFGHIJKLMNOPQRSTUVWXYZ" (code c - b'a') in
    String.◌∷◌ (if leb b'a' (code c) && leb (code c) b'z' then raised else c) (to_upper s)

pub codes-<> : (s t : String) → codes (s <> t) ≡ codes s ++ codes t
unfolding codes
codes-<> String.[] t = ap codes (append.nil t)
codes-<> (String.◌∷◌ c s) t = ap codes (append.cons c s t) ∙ ap (◌∷◌ (code c)) (codes-<> s t)

-- The last code point of a text, 0 for none.
unfoldable pub last : List ℕ → ℕ
last [] = 0
last (c ∷ []) = c
last (c ∷ d ∷ s) = last (d ∷ s)

pub last-append : (s t : List ℕ) (c : ℕ) → last (s ++ (c ∷ t)) ≡ last (c ∷ t)
unfolding last
last-append [] t c = refl
last-append (a ∷ []) t c = refl
last-append (a ∷ b ∷ s) t c = last-append (b ∷ s) t c
