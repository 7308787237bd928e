-- ===== src/Keeper/Decimal.antt =====
-- strconv.Itoa and strconv.Atoi, which keep the count of a guess as a text.
pub mod RoundTrip
use wordle.Prelude.{
  ℕ, zero, suc, ◌+◌, ◌-◌, ◌*◌, ◌/◌, ◌%◌, ◌^◌, Bool, true, false, ◌&&◌, Option, none, some,
}
use wordle.Prelude.{Bytes, [], ◌∷◌, ◌++◌, ltb, leb, ◌==◌, if◌then◌else◌}
use wordle.Prelude.Int.{ℤ, pos, negsuc, sub_ℕ}

-- The decimal digits of a number below 10 ^ (k + 1).
unfoldable pub digits : ℕ → ℕ → Bytes
digits zero n = (48 + n) ∷ []
digits (suc k) n =
    let front = digits k (n / 10) in if ltb n 10 then (48 + n) ∷ [] else front ++ (48 + n % 10) ∷ []

-- An int64 has 19 digits at most.
unfoldable pub itoa : ℤ → Bytes
itoa (pos n) = digits 19 n
itoa (negsuc n) = 45 ∷ digits 19 (suc n)

-- The number that the digits stand for behind `acc`; `none` where a byte is no digit.
unfoldable pub read_digits : ℕ → Bytes → Option ℕ
read_digits acc [] = some acc
read_digits acc (c ∷ rest) =
    let others = read_digits (acc * 10 + (c - 48)) rest in
    if leb 48 c && leb c 57 then others else none

-- At least one digit.
unfoldable pub read_number : Bytes → Option ℕ
read_number [] = none
read_number (c ∷ rest) = read_digits 0 (c ∷ rest)

-- A magnitude in the range of an int64; `none` for the error.
unfoldable pub positive : Option ℕ → Option ℤ
positive none = none
positive (some n) = if ltb n (2 ^ 63) then some (pos n) else none

unfoldable pub negative : Option ℕ → Option ℤ
negative none = none
negative (some n) = if leb n (2 ^ 63) then some (sub_ℕ 0 n) else none

-- Atoi: an optional sign and digits.
unfoldable pub atoi : Bytes → Option ℤ
unfolding positive negative
atoi [] = none
atoi (c ∷ rest) =
    if c == 45
    then negative (read_number rest)
    else if c == 43
    then positive (read_number rest)
    else positive (read_number (c ∷ rest))
