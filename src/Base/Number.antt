-- ===== src/Base/Number.antt =====
-- Go's int, and what the program uses of package strconv and of fmt's %d.
use Prim.Native.Nat.{ℕ, zero, suc, ◌+◌, ◌-◌, ◌*◌, ◌/◌, ◌%◌, ◌<◌}
use Prim.Native.String.{String, char_at}
use Prim.Native.String.{◌++◌ as ◌<>◌}
use mathlib.Core.Path.{◌≡◌}
use native.Mathlib.Omega.{arith}
use mathlib.Core.Bool.{◌&&◌}
use mathlib.Core.Option.{Option, none, some}
use mathlib.Core.List.{List, [], ◌∷◌}
use database_user_operator.Base.Tests.{leb, ltb, ◌=ℕ◌, if◌then◌else◌}
use database_user_operator.Base.Text.{codes}

-- `negsuc n` is -(n + 1).
pub data ℤ : Type 0 where
  pos : ℕ → ℤ
  negsuc : ℕ → ℤ

-- The greatest int of 64 bits.
abbrev max_int : ℕ
max_int = 9223372036854775807

-- The number that a text of decimal digits writes; `none` for any other character.
digits_value : ℕ → List ℕ → Option ℕ
digits_value acc [] = some acc
digits_value acc (c ∷ s) =
    let rest = digits_value (acc * 10 + (c - b'0')) s in
    if leb b'0' c && leb c b'9' then rest else none

-- The digits behind the sign; no digit at all is an error.
magnitude : List ℕ → Option ℕ
magnitude [] = none
magnitude (c ∷ s) = digits_value 0 (c ∷ s)

-- The value that strconv.Atoi returns beside its error: 0 at a syntax error, the nearest int at an
-- overflow.
positive : Option ℕ → ℤ
positive none = pos 0
positive (some n) = pos (if leb n max_int then n else max_int)

negative : Option ℕ → ℤ
negative none = pos 0
negative (some zero) = pos 0
negative (some (suc n)) = negsuc (if leb n max_int then n else max_int)

atoi_codes : List ℕ → ℤ
atoi_codes [] = pos 0
atoi_codes (c ∷ s) =
    if c =ℕ b'-'
    then negative (magnitude s)
    else if c =ℕ b'+'
    then positive (magnitude s)
    else positive (magnitude (c ∷ s))

unfoldable pub atoi : String → ℤ
unfolding atoi_codes positive negative magnitude digits_value codes
atoi s = atoi_codes (codes s)

-- The decimal digits of a number; the fuel is above the number, and each round divides it by ten.
decimal_fuel : ℕ → ℕ → String
decimal_fuel zero n = ""
decimal_fuel (suc f) n =
    let digit = String.◌∷◌ (char_at "0123456789" (n % 10)) "" in
    let more = decimal_fuel f (n / 10) <> digit in if ltb n 10 then digit else more

-- fmt's %d
unfoldable pub decimal : ℤ → String
unfolding decimal_fuel
decimal (pos n) = decimal_fuel (suc n) n
decimal (negsuc n) = "-" <> decimal_fuel (suc (suc n)) (suc n)

-- Any two amounts of fuel above the number give the same digits.
decimal_fuel-enough : (f g n : ℕ) → n < f → n < g → decimal_fuel f n ≡ decimal_fuel g n
unfolding decimal_fuel
decimal_fuel-enough zero g n h k = ground arith
decimal_fuel-enough (suc f) zero n h k = ground arith
decimal_fuel-enough (suc f) (suc g) n h k = ground (arith, decimal_fuel-enough f g (n / 10))
