-- ===== src/Database/Password/Laws.antt =====
-- The length of a generated password and the characters that it holds.
use Prim.Native.String.{char_at}
use database_user_operator.Base.{
  ℕ, zero, suc, ◌+◌, ◌*◌, ◌/◌, ◌%◌, ◌≤◌, ◌<◌, code, String, List, [], ◌∷◌, Bool, true, ◌&&◌, ◌||◌,
  ◌≡◌, refl, arith, ltb, leb, ◌=ℕ◌, length_text, take_text,
}
use database_user_operator.Database.Password.{
  alphabet, symbol, encode_to_string, password_length, password_of,
}

abbrev pub length {ℓ} : {A : Type ℓ} → List A → ℕ
length [] = 0
length (x ∷ xs) = suc (length xs)

-- A letter, a digit, a dash or an underscore: no character that SQL, a URL or JSON treats specially.
abbrev pub is_safe : ℕ → Bool
is_safe c =
    (leb b'A' c && leb c b'Z')
    || (leb b'a' c && leb c b'z')
    || (leb b'0' c && leb c b'9')
    || c =ℕ b'-'
    || c =ℕ b'_'

unfoldable pub all_safe : String → Bool
all_safe String.[] = true
all_safe (String.◌∷◌ c s) = is_safe (code c) && all_safe s

-- A test on each place of the alphabet.
passes : (ℕ → Bool) → (places : ℕ) → Bool
passes test zero = true
passes test (suc places) = passes test places && test places

passes-at :
    (test : ℕ → Bool) (places i : ℕ) → i < places → passes test places ≡ true → test i ≡ true
unfolding passes
passes-at test zero i below all = absurd (omega arith)
passes-at test (suc places) i below all = ground (arith, passes-at test places i)

is_safe_at : ℕ → Bool
is_safe_at i = is_safe (code (char_at alphabet i))

alphabet_table : passes is_safe_at 64 ≡ true
unfolding passes is_safe_at
alphabet_table = refl

symbol_safe : (i : ℕ) → is_safe (code (symbol i)) ≡ true
unfolding symbol is_safe_at
symbol_safe i = passes-at is_safe_at 64 (i % 64) (omega arith) alphabet_table

-- An encoding is a third longer than what it encodes, in whole groups of four.
length_text-encode_to_string :
    (bytes : List ℕ) → length_text (encode_to_string bytes) ≡ (length bytes + 2) / 3 * 4
unfolding length_text encode_to_string
length_text-encode_to_string [] = refl
length_text-encode_to_string (a ∷ []) = refl
length_text-encode_to_string (a ∷ b ∷ []) = refl
length_text-encode_to_string (a ∷ b ∷ c ∷ bytes) = omega (arith, length_text-encode_to_string bytes)

length_text-take_text : (n : ℕ) (s : String) → n ≤ length_text s → length_text (take_text n s) ≡ n
unfolding length_text take_text
length_text-take_text zero s h = refl
length_text-take_text (suc n) String.[] h = absurd (omega arith)
length_text-take_text (suc n) (String.◌∷◌ c s) h = omega (arith, length_text-take_text n s)

-- One symbol in front of a text, cut to a length.
all_safe-symbol :
    (i n : ℕ) (s : String)
    → all_safe (take_text n s) ≡ true
    → all_safe (take_text (suc n) (String.◌∷◌ (symbol i) s)) ≡ true
unfolding all_safe take_text
all_safe-symbol i n s h = rw (symbol_safe i) h

all_safe-zero : (s : String) → all_safe (take_text zero s) ≡ true
unfolding all_safe take_text
all_safe-zero s = refl

-- The padding of an encoding stands behind all characters that hold a whole six bits.
all_safe-take_text :
    (bytes : List ℕ) (n : ℕ)
    → 3 * n ≤ 4 * length bytes
    → all_safe (take_text n (encode_to_string bytes)) ≡ true
unfolding encode_to_string
all_safe-take_text bytes zero h = all_safe-zero _
all_safe-take_text [] (suc n) h = absurd (omega arith)
all_safe-take_text (a ∷ []) (suc zero) h = all_safe-symbol _ _ _ (all_safe-zero _)
all_safe-take_text (a ∷ []) (suc (suc n)) h = absurd (omega arith)
all_safe-take_text (a ∷ b ∷ []) (suc zero) h = all_safe-symbol _ _ _ (all_safe-zero _)
all_safe-take_text (a ∷ b ∷ []) (suc (suc zero)) h =
    all_safe-symbol _ _ _ (all_safe-symbol _ _ _ (all_safe-zero _))
all_safe-take_text (a ∷ b ∷ []) (suc (suc (suc n))) h = absurd (omega arith)
all_safe-take_text (a ∷ b ∷ c ∷ bytes) (suc zero) h = all_safe-symbol _ _ _ (all_safe-zero _)
all_safe-take_text (a ∷ b ∷ c ∷ bytes) (suc (suc zero)) h =
    all_safe-symbol _ _ _ (all_safe-symbol _ _ _ (all_safe-zero _))
all_safe-take_text (a ∷ b ∷ c ∷ bytes) (suc (suc (suc zero))) h =
    all_safe-symbol _ _ _ (all_safe-symbol _ _ _ (all_safe-symbol _ _ _ (all_safe-zero _)))
all_safe-take_text (a ∷ b ∷ c ∷ bytes) (suc (suc (suc (suc n)))) h = all_safe-symbol _ _ _ (
    all_safe-symbol _ _ _
      (all_safe-symbol _ _ _ (all_safe-symbol _ _ _ (all_safe-take_text bytes n (omega arith)))))

password_length_bound : (n : ℕ) → 16 ≤ password_length n
unfolding password_length
password_length_bound n = ground arith

ltb_of_lt : (a b : ℕ) → a < b → ltb a b ≡ true
ltb_of_lt a b h = ground arith

-- The encoding is always longer than the password, so it is always cut.
password_of-eq :
    (m : ℕ) (bytes : List ℕ)
    → 16 ≤ m
    → length bytes ≡ m
    → password_of m bytes ≡ take_text m (encode_to_string bytes)
unfolding password_of
password_of-eq m bytes h e =
    rw
      (ltb_of_lt m (length_text (encode_to_string bytes))
        (omega (arith, length_text-encode_to_string bytes)))
      refl

-- From as many random bytes as the length that is used, the password has exactly that length,
-- which is at least 16, and consists of letters, digits, dashes and underscores.
pub password_of_shape :
    (n : ℕ) (bytes : List ℕ)
    → length bytes ≡ password_length n
    → (length_text (password_of (password_length n) bytes) ≡ password_length n)
      × (16 ≤ password_length n)
      × (all_safe (password_of (password_length n) bytes) ≡ true)
password_of_shape n bytes h =
    let m = password_length n in
    let long = password_length_bound n in
    rw (password_of-eq m bytes long h) (
      length_text-take_text m _ (omega (arith, length_text-encode_to_string bytes, long)),
      long,
      all_safe-take_text bytes m (omega arith),
    )
