-- ===== src/Database/Quote/Word.antt =====
-- Quoting of a text of the characters that the schema admits in names, by the functions of
-- internal/database/postgres.go and internal/database/mysql.go.
use database_user_operator.Base.{
  ◌≡◌, refl, ap, ℕ, Bool, true, false, ◌&&◌, ◌=ℕ◌, String, ◌<>◌, code, codes, replace_all, arith,
}
use database_user_operator.Api.Schema.{is_lower, is_word, all_word}
use database_user_operator.Database.Quote.{
  enclose, quote_identifier, quote_literal, quote_mysql_identifier, quote_mysql_literal,
}

is_word-≢ : (c old : ℕ) → is_word c ≡ true → is_word old ≡ false → (c =ℕ old) ≡ false
unfolding is_word is_lower
is_word-≢ c old h k = ground arith

both_true : (a b : Bool) → (a && b) ≡ true → (a ≡ true) × (b ≡ true)
both_true a b h = ground arith

-- A text of word characters has nothing to replace.
replace_all-word :
    (s : String) (old : ℕ) (new : String)
    → is_word old ≡ false
    → all_word (codes s) ≡ true
    → replace_all s old new ≡ s
unfolding replace_all all_word codes
replace_all-word String.[] old new k h = refl
replace_all-word (String.◌∷◌ c s) old new k h =
    let parts = both_true (is_word (code c)) (all_word (codes s)) h in
    rw (is_word-≢ (code c) old parts.0 k) (ap (String.◌∷◌ c) (replace_all-word s old new k parts.1))

-- Each of the four functions puts the text between two marks as it is.
abbrev pub Verbatim : String → Type 0
Verbatim s =
    (quote_identifier s ≡ "\"" <> (s <> "\""))
    × (quote_literal s ≡ "'" <> (s <> "'"))
    × (quote_mysql_identifier s ≡ "`" <> (s <> "`"))
    × (quote_mysql_literal s ≡ "'" <> (s <> "'"))

pub all_word-Verbatim : (s : String) → all_word (codes s) ≡ true → Verbatim s
unfolding quote_identifier quote_literal quote_mysql_identifier quote_mysql_literal enclose is_word
    is_lower
all_word-Verbatim s h =
    let same =
      λ (old : ℕ) (new : String) (k : is_word old ≡ false). replace_all-word s old new k h in
    (
      rw (same b'"' "\"\"" refl) refl,
      rw (same b'\'' "''" refl) refl,
      rw (same b'`' "``" refl) refl,
      rw (same b'\\' "\\\\" refl) (rw (same b'\'' "''" refl) refl),
    )
