-- ===== src/Tests/Scanners.antt =====
-- Scanners for quoted names and values that behave as documented.
use mathlib.Core.Path.{subst}
use database_user_operator.Base.{
  ◌≡◌, sym, ℕ, Bool, true, false, ◌&&◌, Option, none, some, List, [], ◌∷◌, ◌=ℕ◌, if◌then◌else◌,
  arith, Bool-cases, inl, inr, =ℕ_iff,
}
use database_user_operator.Database.Quote.RoundTrip.{prepend, goes_on, Scanner}

-- MySQL's escape sequences: what a backslash and the character `c` stand for. (Before `%` and `_`
-- MySQL keeps the backslash; no text here holds one there.)
abbrev mysql_escape : ℕ → ℕ
mysql_escape c =
    if c =ℕ b'0'
    then 0
    else if c =ℕ b'b'
    then 8
    else if c =ℕ b'n'
    then 10
    else if c =ℕ b'r'
    then 13
    else if c =ℕ b't'
    then 9
    else if c =ℕ b'Z'
    then 26
    else c

-- A scanner behind an opening mark `q`: a doubled mark stands for the mark, a
-- single one ends the token, and with `slash` a backslash starts an escape sequence. The result is
-- the value of the token and the text behind it.
read_token : Bool → ℕ → List ℕ → Option (List ℕ × List ℕ)
read_token slash q [] = none
read_token slash q (c ∷ []) = if c =ℕ q then some ([], []) else none
read_token slash q (c ∷ d ∷ s) =
    let doubled = prepend q (read_token slash q s) in
    let escape = prepend (mysql_escape d) (read_token slash q s) in
    let single = prepend c (read_token slash q (d ∷ s)) in
    if c =ℕ q
    then (if d =ℕ q then doubled else some ([], d ∷ s))
    else if slash && (c =ℕ b'\\')
    then escape
    else single

read_token_end :
    (slash : Bool) (q : ℕ) (joins : ℕ → Bool) (rest : List ℕ)
    → joins q ≡ true
    → goes_on joins rest ≡ false
    → read_token slash q (q ∷ rest) ≡ some ([], rest)
unfolding read_token
read_token_end slash q joins [] j h = ground arith
read_token_end slash q joins (d ∷ rest) j h = elim (Bool-cases (d =ℕ q)) [
  | inl same ↦
      let joined = subst (λ x. joins x ≡ true) (sym ((=ℕ_iff d q).0 same)) j in
      absurd (ground (arith, joined, h))
  | inr other ↦ ground arith
]

read_token_doubled :
    (slash : Bool) (q : ℕ) (s : List ℕ)
    → read_token slash q (q ∷ q ∷ s) ≡ prepend q (read_token slash q s)
unfolding read_token
read_token_doubled slash q s = ground arith

read_token_single :
    (slash : Bool) (q c : ℕ) (s : List ℕ)
    → (c =ℕ q) ≡ false
    → (slash && (c =ℕ b'\\')) ≡ false
    → read_token slash q (c ∷ s) ≡ prepend c (read_token slash q s)
unfolding read_token
read_token_single slash q c [] h k = rw h
read_token_single slash q c (d ∷ s) h k = rw (h, k)

read_token_slash :
    (q : ℕ) (s : List ℕ)
    → (b'\\' =ℕ q) ≡ false
    → read_token true q (b'\\' ∷ b'\\' ∷ s) ≡ prepend b'\\' (read_token true q s)
unfolding read_token
read_token_slash q s h = rw h

pub scanner :
    (slash : Bool) (q : ℕ) (joins : ℕ → Bool)
    → joins q ≡ true
    → (b'\\' =ℕ q) ≡ false
    → Scanner slash q joins
scanner slash q joins j k = record {
  scan = read_token slash q;
  scan_end = λ rest. read_token_end slash q joins rest j;
  scan_doubled = read_token_doubled slash q;
  scan_slash = λ s h. rw h (read_token_slash q s k);
  scan_single = λ c s _. read_token_single slash q c s;
}
