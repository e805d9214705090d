-- ===== src/Prelude/Decimal.antt =====
-- Python's `str` of an integer, and the floor division of one.
use Prim.Native.Nat.{ℕ, zero, suc, ◌/◌, ◌%◌}
use Prim.Native.String.{String, ◌++◌ as append}
use mathlib.Core.List.{List, [], ◌∷◌}
use boiler_reviews.Prelude.Tests.{if◌then◌else◌, ltb}
use boiler_reviews.Prelude.Int.{ℤ, pos, negsuc}

abbrev digit_in : List String → ℕ → String
digit_in [] n = ""
digit_in (d ∷ ds) zero = d
digit_in (d ∷ ds) (suc n) = digit_in ds n

abbrev digit : ℕ → String
digit = digit_in ("0" ∷ "1" ∷ "2" ∷ "3" ∷ "4" ∷ "5" ∷ "6" ∷ "7" ∷ "8" ∷ "9" ∷ [])

-- Each step drops a digit, so a number has fewer digits than its value plus one.
unfoldable pub digits : ℕ → ℕ → String
digits zero n = ""
digits (suc fuel) n =
    let rest = digits fuel (n / 10) in if ltb n 10 then digit n else append rest (digit (n % 10))

abbrev pub str_nat : ℕ → String
str_nat n = digits (suc n) n

abbrev pub str_int : ℤ → String
str_int (pos n) = str_nat n
str_int (negsuc n) = append "-" (str_nat (suc n))

-- `n // d`
abbrev pub floor_div : ℤ → ℕ → ℤ
floor_div (pos n) d = pos (n / d)
floor_div (negsuc n) d = negsuc (n / d)
