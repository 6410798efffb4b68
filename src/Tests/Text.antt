-- ===== src/Tests/Text.antt =====
-- Quoting, passwords and messages.
use database_user_operator.Base.{
  ◌++◌, ◌≡◌, refl, true, false, some, ◌=ℕ◌, codes, ℕ, List, [], ◌∷◌, ◌≤◌, length_text, ◌<>◌,
}
use database_user_operator.Database.Quote.{
  quote_identifier, quote_literal, quote_mysql_identifier, quote_mysql_literal,
}
use database_user_operator.Database.Quote.RoundTrip.{
  Scanner, NameScanner, joins_value, read_quoted, read_quoted-postgres, read_quoted-mysql,
}
use database_user_operator.Tests.Scanners.{scanner}
use database_user_operator.Database.Password.{password_length, password_of}
use database_user_operator.Database.Password.Laws.{all_safe, password_of_shape}
use database_user_operator.Controller.Message.{is_id_char, normalize_error_message}
use database_user_operator.Controller.Message.RequestIds.{normalize_error_message_forgets_id}

abbrev postgres_names : NameScanner b'"'
postgres_names = scanner false b'"' (λ c. c =ℕ b'"') refl refl

abbrev postgres_values : Scanner false b'\'' joins_value
postgres_values = scanner false b'\'' joins_value refl refl

abbrev mysql_names : NameScanner b'`'
mysql_names = scanner false b'`' (λ c. c =ℕ b'`') refl refl

abbrev mysql_values : Scanner true b'\'' (λ c. c =ℕ b'\'')
mysql_values = scanner true b'\'' (λ c. c =ℕ b'\'') refl refl

read_quoted-postgres_example :
    (read_quoted postgres_names (codes (quote_identifier "a\"b") ++ codes ";")
      ≡ some (codes "a\"b", codes ";"))
    × (read_quoted postgres_values (codes (quote_literal "a\"b") ++ []) ≡ some (codes "a\"b", []))
unfolding codes
read_quoted-postgres_example =
    read_quoted-postgres postgres_names postgres_values "a\"b" (codes ";") []
      (refl, (refl, (refl, tt))) refl refl

read_quoted-mysql_example :
    (read_quoted mysql_names (codes (quote_mysql_identifier "a`b") ++ codes ";")
      ≡ some (codes "a`b", codes ";"))
    × (read_quoted mysql_values (codes (quote_mysql_literal "a`b") ++ codes ";")
        ≡ some (codes "a`b", codes ";"))
unfolding codes
read_quoted-mysql_example =
    read_quoted-mysql mysql_names mysql_values "a`b" (codes ";") (refl, (refl, (refl, tt))) refl
      refl

abbrev bytes : List ℕ
bytes = 1 ∷ 2 ∷ 3 ∷ 4 ∷ 5 ∷ 6 ∷ 7 ∷ 8 ∷ 9 ∷ 10 ∷ 11 ∷ 12 ∷ 13 ∷ 14 ∷ 15 ∷ 255 ∷ []

password_of_shape_example :
    (length_text (password_of (password_length 16) bytes) ≡ password_length 16)
    × (16 ≤ password_length 16)
    × (all_safe (password_of (password_length 16) bytes) ≡ true)
unfolding password_length
password_of_shape_example = password_of_shape 16 bytes refl

normalize_error_message_forgets_id_example :
    normalize_error_message
      ("operation error, " <> ("RequestID: " <> ("1f-a0" <> ", AccessDenied")))
    ≡ normalize_error_message ("operation error, " <> ("RequestID: " <> ("77" <> ", AccessDenied")))
unfolding codes is_id_char
normalize_error_message_forgets_id_example =
    normalize_error_message_forgets_id "operation error, " "1f-a0" "77" ", AccessDenied" refl refl
      refl
