-- ===== src/Base/Decimal.antt =====
-- `%d` of `fmt.Sprintf`, for a count.
use Prim.Native.Nat.{ℕ, zero, suc, ◌+◌, ◌*◌, ◌/◌, ◌%◌, ◌<◌}
use Prim.Native.String.{String, ◌++◌}
use mathlib.Core.Path.{◌≡◌, refl}
use mathlib.Core.Logic.{ite}
use mathlib.Core.List.{List, [], ◌∷◌}
use native.Mathlib.Omega.{arith}
use native.Mathlib.Decide.{dec_lt}

-- The digits, the last one first. One unit of fuel is spent on each digit.
digits_fuel : ℕ → ℕ → List ℕ
digits_fuel zero n = []
digits_fuel (suc f) n =
    let rest = digits_fuel f (n / 10) in ite (dec_lt n 10) (n ∷ []) ((n % 10) ∷ rest)

digits : ℕ → List ℕ
unfolding digits_fuel
digits n = digits_fuel (suc n) n

abbrev value : List ℕ → ℕ
value [] = 0
value (d ∷ ds) = d + 10 * value ds

value-digits_fuel : (f n : ℕ) → n < f → value (digits_fuel f n) ≡ n
unfolding digits_fuel
value-digits_fuel zero n h = elim h [ ]
value-digits_fuel (suc f) n h = ground (arith, value-digits_fuel f (n / 10))

-- The fuel suffices: the digits stand for the number.
value-digits : (n : ℕ) → value (digits n) ≡ n
unfolding digits
value-digits n = value-digits_fuel (suc n) n (omega arith)

abbrev digit_text : ℕ → String
digit_text zero = "0"
digit_text (suc zero) = "1"
digit_text (suc (suc zero)) = "2"
digit_text (suc (suc (suc zero))) = "3"
digit_text (suc (suc (suc (suc zero)))) = "4"
digit_text (suc (suc (suc (suc (suc zero))))) = "5"
digit_text (suc (suc (suc (suc (suc (suc zero)))))) = "6"
digit_text (suc (suc (suc (suc (suc (suc (suc zero))))))) = "7"
digit_text (suc (suc (suc (suc (suc (suc (suc (suc zero)))))))) = "8"
digit_text _ = "9"

abbrev text : List ℕ → String
text [] = ""
text (d ∷ ds) = text ds ++ digit_text d

unfoldable pub decimal : ℕ → String
unfolding digits dec_lt
decimal n = text (digits n)

decimal_example : decimal 1203 ≡ "1203"
unfolding decimal
decimal_example = refl
