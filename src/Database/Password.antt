-- ===== src/Database/Password.antt =====
-- GeneratePassword of internal/database/postgres.go, and what it uses of encoding/base64. The random
-- bytes are an argument here; crypto/rand is called in Effects.
pub mod Laws
use Prim.Native.String.{char_at}
use database_user_operator.Base.{
  ℕ, zero, suc, ◌+◌, ◌*◌, ◌/◌, ◌%◌, Char, String, List, [], ◌∷◌, ltb, if◌then◌else◌, length_text,
  take_text,
}

-- The alphabet of base64.URLEncoding.
abbrev pub alphabet : String
alphabet = "ABCDEFGHIJKLMNOPQRSTUVWXYZabcdefghijklmnopqrstuvwxyz0123456789-_"

unfoldable pub symbol : ℕ → Char
symbol i = char_at alphabet (i % 64)

infixr 67 ◌◂◌
-- A character in front of a text.
abbrev ◌◂◌ : Char → String → String
c ◂ s = String.◌∷◌ c s

-- base64.URLEncoding.EncodeToString, with padding.
unfoldable pub encode_to_string : List ℕ → String
unfolding symbol
encode_to_string [] = ""
encode_to_string (a ∷ []) = symbol (a / 4) ◂ symbol (a % 4 * 16) ◂ "=="
encode_to_string (a ∷ b ∷ []) =
    symbol (a / 4) ◂ symbol (a % 4 * 16 + b / 16) ◂ symbol (b % 16 * 4) ◂ "="
encode_to_string (a ∷ b ∷ c ∷ bytes) =
    symbol (a / 4)
    ◂ symbol (a % 4 * 16 + b / 16)
    ◂ symbol (b % 16 * 4 + c / 64)
    ◂ symbol (c % 64)
    ◂ encode_to_string bytes

-- The length that is used: at least 16, or else 32.
unfoldable pub password_length : ℕ → ℕ
password_length length = if ltb length 16 then 32 else length

-- The password of `length` characters that the random bytes give.
unfoldable pub password_of : ℕ → List ℕ → String
unfolding encode_to_string length_text take_text
password_of length bytes =
    let password = encode_to_string bytes in
    if ltb length (length_text password) then take_text length password else password
