-- ===== src/Database/Quote/RoundTrip.antt =====
-- The quoted names and values of internal/database/postgres.go and mysql.go, as the servers read
-- them.
use mathlib.Core.List.{append_assoc}
use database_user_operator.Base.{
  ℕ, Bool, true, false, ◌&&◌, ◌||◌, ltb, Option, none, some, String, List, [], ◌∷◌, ◌++◌, ◌≡◌, refl,
  sym, =ℕ_iff, ap, ◌∙◌, ◌=ℕ◌, if◌then◌else◌, Bool-cases, inl, inr, code, codes, codes-<>,
  replace_all,
}
use database_user_operator.Database.Quote.{
  enclose, quote_identifier, quote_literal, quote_mysql_identifier, quote_mysql_literal,
}

-- What a scanner has read, with one more character in front.
abbrev pub prepend : ℕ → Option (List ℕ × List ℕ) → Option (List ℕ × List ℕ)
prepend c none = none
prepend c (some (s, rest)) = some (c ∷ s, rest)

-- With some of the characters the token may go on behind a closing mark.
abbrev pub goes_on : (ℕ → Bool) → List ℕ → Bool
goes_on joins [] = false
goes_on joins (c ∷ rest) = joins c

-- The lexer of a server for the tokens between two marks, with and without backslash escapes, and
-- what is documented of it. A doubled mark stands for the mark, a mark behind which the token does
-- not go on ends it, with escapes a doubled backslash stands for a backslash, and any other character
-- but zero stands for itself. The result is the value and the text behind the token. What a server
-- does with the value is not part of it: it may refuse a name that is empty, or cut one that is long.
pub record Scanner (slash : Bool) (mark : ℕ) (joins : ℕ → Bool) : Type 0 where
  -- Behind an opening mark.
  pub scan : List ℕ → Option (List ℕ × List ℕ)
  pub scan_end : (rest : List ℕ) → goes_on joins rest ≡ false → scan (mark ∷ rest) ≡ some ([], rest)
  pub scan_doubled : (s : List ℕ) → scan (mark ∷ mark ∷ s) ≡ prepend mark (scan s)
  pub scan_slash : (s : List ℕ) → slash ≡ true → scan (b'\\' ∷ b'\\' ∷ s) ≡ prepend b'\\' (scan s)
  pub scan_single :
      (c : ℕ) (s : List ℕ)
      → (c =ℕ 0) ≡ false
      → (c =ℕ mark) ≡ false
      → (slash && (c =ℕ b'\\')) ≡ false
      → scan (c ∷ s) ≡ prepend c (scan s)

-- A token that begins with the mark.
pub read_quoted :
    {slash : Bool} {mark : ℕ} {joins : ℕ → Bool}
    → Scanner slash mark joins
    → List ℕ
    → Option (List ℕ × List ℕ)
read_quoted {mark = mark} scanner [] = none
read_quoted {mark = mark} scanner (c ∷ s) = if c =ℕ mark then scanner.scan s else none

-- The scanner of names: only a mark that follows at once makes a token go on.
abbrev pub NameScanner : ℕ → Type 0
NameScanner mark = Scanner false mark (λ c. c =ℕ mark)

-- Behind white space, and behind comments, PostgreSQL takes another mark for more of a value.
abbrev pub joins_value : ℕ → Bool
joins_value c = (c =ℕ b'\'') || ltb c 33 || (c =ℕ b'-')

-- No character zero, which no text of a server can hold.
abbrev pub NonZero : List ℕ → Type 0
NonZero [] = Unit
NonZero (c ∷ s) = ((c =ℕ 0) ≡ false) × NonZero s

-- The replacement on code points.
escaped : List ℕ → ℕ → List ℕ → List ℕ
escaped [] old new = []
escaped (c ∷ s) old new = (if c =ℕ old then new else c ∷ []) ++ escaped s old new

codes-replace_all :
    (s : String) (old : ℕ) (new : String)
    → codes (replace_all s old new) ≡ escaped (codes s) old (codes new)
unfolding replace_all escaped codes
codes-replace_all String.[] old new = refl
codes-replace_all (String.◌∷◌ c s) old new = elim (Bool-cases (code c =ℕ old)) [
  | inl hit ↦
      rw hit (codes-<> new _ ∙ ap (λ (t : List ℕ). codes new ++ t) (codes-replace_all s old new))
  | inr other ↦ rw other (ap (λ (t : List ℕ). code c ∷ t) (codes-replace_all s old new))
]

module _ {mark : ℕ} {joins : ℕ → Bool} (rest : List ℕ) (h : goes_on joins rest ≡ false) where
  scan-escaped :
      (scanner : Scanner false mark joins) (s : List ℕ)
      → NonZero s
      → scanner.scan (escaped s mark (mark ∷ mark ∷ []) ++ (mark ∷ rest)) ≡ some (s, rest)
  unfolding escaped
  scan-escaped scanner [] _ = scanner.scan_end rest h
  scan-escaped scanner (c ∷ s) (n, ns) = elim (Bool-cases (c =ℕ mark)) [
    | inl hit ↦ rw hit (
        scanner.scan_doubled _
        ∙ rw (scan-escaped scanner s ns)
            (ap (λ (x : ℕ). some (x ∷ s, rest)) (sym ((=ℕ_iff c mark).0 hit))))
    | inr other ↦ rw other (scanner.scan_single c _ n other refl ∙ rw (scan-escaped scanner s ns))
  ]

module _ {joins : ℕ → Bool} (rest : List ℕ) (h : goes_on joins rest ≡ false) where
  scan-escaped_twice :
      (scanner : Scanner true b'\'' joins) (s : List ℕ)
      → NonZero s
      → scanner.scan (
          escaped (escaped s b'\\' (b'\\' ∷ b'\\' ∷ [])) b'\'' (b'\'' ∷ b'\'' ∷ [])
          ++ (b'\'' ∷ rest))
        ≡ some (s, rest)
  unfolding escaped
  scan-escaped_twice scanner [] _ = scanner.scan_end rest h
  scan-escaped_twice scanner (c ∷ s) (n, ns) = elim (Bool-cases (c =ℕ b'\\')) [
    | inl hit ↦ rw hit (
        scanner.scan_slash _ refl
        ∙ rw (scan-escaped_twice scanner s ns)
            (ap (λ (x : ℕ). some (x ∷ s, rest)) (sym ((=ℕ_iff c b'\\').0 hit))))
    | inr other ↦ rw other (elim (Bool-cases (c =ℕ b'\'')) [
      | inl quote ↦ rw quote (
          scanner.scan_doubled _
          ∙ rw (scan-escaped_twice scanner s ns)
              (ap (λ (x : ℕ). some (x ∷ s, rest)) (sym ((=ℕ_iff c b'\'').0 quote))))
      | inr single ↦
          rw single (scanner.scan_single c _ n single other ∙ rw (scan-escaped_twice scanner s ns))
    ])
  ]

-- The code points of an enclosed text, with what follows it.
codes-enclose :
    (q s : String) (rest : List ℕ)
    → codes (enclose q s) ++ rest ≡ codes q ++ (codes s ++ (codes q ++ rest))
unfolding enclose
codes-enclose q s rest = simp (codes-<>, append_assoc)

quote_identifier_lem : (s : String) → quote_identifier s ≡ enclose "\"" (replace_all s b'"' "\"\"")
unfolding quote_identifier
quote_identifier_lem s = refl

quote_literal_lem : (s : String) → quote_literal s ≡ enclose "'" (replace_all s b'\'' "''")
unfolding quote_literal
quote_literal_lem s = refl

quote_mysql_identifier_lem :
    (s : String) → quote_mysql_identifier s ≡ enclose "`" (replace_all s b'`' "``")
unfolding quote_mysql_identifier
quote_mysql_identifier_lem s = refl

quote_mysql_literal_lem :
    (s : String)
    → quote_mysql_literal s ≡ enclose "'" (replace_all (replace_all s b'\\' "\\\\") b'\'' "''")
unfolding quote_mysql_literal
quote_mysql_literal_lem s = refl

-- For a text without the character zero: the scanner of PostgreSQL for names reads a quoted name back
-- as one token that stands for the text, if what follows does not begin with the mark of names; and
-- its scanner for values, with standard_conforming_strings on, where a backslash is a plain
-- character, reads a quoted value back as one token that stands for the text, if what follows does
-- not begin with the mark of values, white space or a dash. (The server's checks of a name come
-- behind the scan: PostgreSQL refuses one that is empty, and cuts one longer than 63 bytes.)
pub read_quoted-postgres :
    (names : NameScanner b'"') (values : Scanner false b'\'' joins_value) (s : String)
    (rest after : List ℕ)
    → NonZero (codes s)
    → goes_on (λ c. c =ℕ b'"') rest ≡ false
    → goes_on joins_value after ≡ false
    → (read_quoted names (codes (quote_identifier s) ++ rest) ≡ some (codes s, rest))
      × (read_quoted values (codes (quote_literal s) ++ after) ≡ some (codes s, after))
unfolding read_quoted codes
read_quoted-postgres names values s rest after n h k = (
  rw (quote_identifier_lem, codes-enclose, codes-replace_all)
      (scan-escaped rest h names (codes s) n),
  rw (quote_literal_lem, codes-enclose, codes-replace_all)
      (scan-escaped after k values (codes s) n),
)

-- For a text without the character zero, and a text behind it that begins neither with the mark of
-- names nor with that of values: the scanner of MySQL and MariaDB for names reads a quoted name back
-- as one token that stands for the text, and their scanner for values, with backslash escapes on, as
-- is the default, reads a quoted value back as one token that stands for the text. (The server's
-- checks of a name, as of its length, come behind the scan.)
pub read_quoted-mysql :
    (names : NameScanner b'`') (values : Scanner true b'\'' (λ c. c =ℕ b'\'')) (s : String)
    (rest : List ℕ)
    → NonZero (codes s)
    → goes_on (λ c. c =ℕ b'`') rest ≡ false
    → goes_on (λ c. c =ℕ b'\'') rest ≡ false
    → (read_quoted names (codes (quote_mysql_identifier s) ++ rest) ≡ some (codes s, rest))
      × (read_quoted values (codes (quote_mysql_literal s) ++ rest) ≡ some (codes s, rest))
unfolding read_quoted codes
read_quoted-mysql names values s rest n h k = (
  rw (quote_mysql_identifier_lem, codes-enclose, codes-replace_all)
      (scan-escaped rest h names (codes s) n),
  rw (quote_mysql_literal_lem, codes-enclose, codes-replace_all, codes-replace_all)
      (scan-escaped_twice rest k values (codes s) n),
)
